-- ===== src/Main/Arguments.antt =====
-- `ParseCommandLine` and `GetConfigFromEnv` of src/utility/utility_functions.h, which `main` does not
-- call. What boost::program_options makes of the command line is a parameter: the options that were
-- given, with their values.
use dog_game_cpp.Common.{
  ◌≡◌, refl, ℤ, Bool, true, false, ◌&&◌, Bool-cases, inl, inr, List, [], ◌∷◌, Option, some, none,
  String, lookup, if◌then◌else◌, Result, ok, err, ◌>>=◌, or_fail, out_of_range, runtime_error, Fits,
}
use dog_game_cpp.Request.Parameters.{stoi}
use dog_game_cpp.Request.Numbers.{decimal, stoi-decimal}
use dog_game_cpp.Main.{Args, default_args}

abbrev Options : Type 0
Options = List (String × String)

-- `vm.contains`
abbrev has_option : Options → String → Bool
has_option vm name = elim (lookup name vm) [ none ↦ false | some _ ↦ true ]

-- A variable that `po::notify` sets where the option is given.
abbrev value_or : Options → String → String → String
value_or vm name default_value = elim (lookup name vm) [ none ↦ default_value | some v ↦ v ]

-- `std::stoi`, which throws where it reads no `int`.
abbrev read_int : String → Result ℤ
read_int text = or_fail (stoi text) out_of_range

unfoldable pub parse_command_line : Result Options → Result (Option Args)
parse_command_line parsed = do
  vm ← parsed
  if has_option vm "help"
      then ok none
      else if has_option vm "config-file"
      then ((if has_option vm "tick-period"
            then read_int (value_or vm "tick-period" "")
            else ok default_args.tick_period)
          >>= λ tick_period.
              (if has_option vm "state-file" && has_option vm "save-state-period"
                then read_int (value_or vm "save-state-period" "")
                else ok default_args.save_period)
              >>= λ save_period. ok (
                  some (record {
                    tick_period = tick_period;
                    save_period = save_period;
                    config_file = value_or vm "config-file" default_args.config_file;
                    save_file = value_or vm "state-file" default_args.save_file;
                    spawn_random_points = has_option vm "randomize-spawn-points";
                  })))
      else err runtime_error

-- `struct AppConfig`
pub record AppConfig : Type 0 where
  pub db_url : String

-- The argument is what `std::getenv` finds for `GAME_DB_URL`.
unfoldable pub get_config_from_env : Option String → Result AppConfig
get_config_from_env url = or_fail url runtime_error >>= λ db_url. ok (record { db_url = db_url })

-- The options that say what the arguments are.
abbrev pub options_of : Args → Options
options_of args =
    ("config-file", args.config_file)
    ∷ ("tick-period", decimal args.tick_period)
    ∷ ("state-file", args.save_file)
    ∷ ("save-state-period", decimal args.save_period)
    ∷ (if args.spawn_random_points then ("randomize-spawn-points", "") ∷ [] else [])

-- Arguments whose periods are in the range of `int` and that are given as options, the periods in
-- decimal, are read back.
pub parse_command_line-options_of :
    (args : Args)
    → Fits args.tick_period
    → Fits args.save_period
    → parse_command_line (ok (options_of args)) ≡ ok (some args)
unfolding parse_command_line
parse_command_line-options_of args t p =
    let read_tick = stoi-decimal args.tick_period t in
    let read_save = stoi-decimal args.save_period p in
    elim (Bool-cases args.spawn_random_points) [
      | inl y ↦ rw (y, read_tick, read_save) refl
      | inr n ↦ rw (n, read_tick, read_save) refl
    ]
