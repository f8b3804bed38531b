-- ===== src/Main.antt =====
-- src/main.cpp, with `ReadJson` of src/core/MapParser.cpp and `deserialize_game_state` of
-- src/serialization/game_state_serialization.cpp: from the start of the program to the server.
pub mod Start
pub mod Restart
pub mod Arguments
use dog_game_cpp.Common.{
  ℕ, zero, suc, ℤ, pos, ltb_ℤ, Bool, true, false, not, ◌&&◌, List, [], ◌∷◌, Option, some, none,
  String, str_eq, if◌then◌else◌, Error, no_such_file, Result, ok, err, ◌>>=◌, or_fail,
}
use dog_game_cpp.Float.{Float}
use dog_game_cpp.LootGenerator.{Double}
use dog_game_cpp.Game.Data.{Game}
use dog_game_cpp.Game.{create_game}
use dog_game_cpp.Game.Saving.{GameState, restore_sessions, serialize_state}
use dog_game_cpp.Request.{Json}
use dog_game_cpp.MapParser.{ConfigJson, empty_storage, parse_maps}
use dog_game_cpp.Serializer.{JsonWriter}
use dog_game_cpp.EventLog.{log_start_server, log_server_end}
use dog_game_cpp.Api.Data.{ApiHandler}
use dog_game_cpp.Ticker.{make_api_handler}
use dog_game_cpp.Http.Connection.{Server, start_server}

-- `struct Args`
pub record Args : Type 0 where
  pub tick_period : ℤ
  pub save_period : ℤ
  pub config_file : String
  pub save_file : String
  pub spawn_random_points : Bool

-- `Args{}`
abbrev pub default_args : Args
default_args = record {
  tick_period = pos 100;
  save_period = pos 10000;
  config_file = "./data/config.json";
  save_file = "";
  spawn_random_points = false;
}

-- What the program finds outside: the files by their paths; whether the data base can be opened and
-- its table be made, and the port be opened; the reading of an archive; `hardware_concurrency`; the time
-- of the log, and `what` of an exception.
pub record World (F : Type 0) : Type 0 where
  pub file : String → Option String
  pub data_base : Result {0} Unit
  pub port : Result {0} Unit
  pub read_archive : String → Result (GameState F)
  pub hardware_concurrency : ℕ
  pub now : String
  pub what : Error → String

module _ {F : Type 0} (world : World F) where
  unfoldable pub read_json : {J : Type 0} → Json J → String → Result J
  read_json j json_path = or_fail (world.file json_path) no_such_file >>= j.parse

  -- An archive that is not there is an empty state.
  unfoldable pub deserialize_game_state : String → Result (GameState F)
  deserialize_game_state path = elim (world.file path) [
    | none ↦ ok []
    | some archive ↦ world.read_archive archive
  ]

-- The number of threads that `RunWorkers` starts: the loop `while (--num_threads)`.
unfoldable pub started_threads : ℕ → ℕ
started_threads zero = zero
started_threads (suc zero) = zero
started_threads (suc (suc n)) = suc (started_threads (suc n))

-- How many threads run the function: those, and the one that calls `RunWorkers`.
unfoldable pub run_workers : ℕ → ℕ
run_workers zero = suc (started_threads 1)
run_workers (suc n) = suc (started_threads (suc n))

-- How `main` goes on: a server that runs, or the end with an exit code; and what is logged.
pub data Outcome (F D G V : Type 0) : Type 0 where
  runs : Server F D G → V → Outcome F D G V
  exits : ℤ → V → Outcome F D G V

module _ {F D G : Type 0} ⦃f : Float F⦄ ⦃d : Double D⦄ (to_double : F → D) (world : World F) where
  -- The part of `main` on saved states.
  unfoldable pub restore_saved : Args → Game F D G → Result (Game F D G)
  restore_saved args game =
      if not (str_eq args.save_file "") && ltb_ℤ (pos 0) args.save_period
      then (deserialize_game_state world args.save_file >>= λ state.
          restore_sessions to_double (record game { save_path = args.save_file }) state)
      else ok game

module _ {F D G J : Type 0} ⦃f : Float F⦄ ⦃d : Double D⦄ (to_double : F → D) (world : World F)
    (j : Json J) (c : ConfigJson F J) where
  -- The `try` block of `main` up to `RunWorkers`. `create_game` is called with its default arguments.
  unfoldable pub set_up : Args → G → Result (ApiHandler F D G)
  set_up args tokenizer = do
    connected ← world.data_base
    json_value ← read_json world j args.config_file
    stor ← parse_maps j c json_value empty_storage
    game ← create_game stor tokenizer (pos 100) false
    restored ← restore_saved to_double world args game
    served ← world.port
    ok (make_api_handler restored)

module _ {F D G V : Type 0} (world : World F) (w : JsonWriter F D V) where
  unfoldable pub main_outcome : Result (ApiHandler F D G) → Outcome F D G V
  main_outcome (ok handler) =
      runs (start_server handler) (log_start_server w world.now "0.0.0.0" 8080 "server started")
  main_outcome (err ex) =
      exits (pos 1) (log_server_end w world.now "server exited" (pos 1) (world.what ex))

  -- The handler of SIGINT and SIGTERM, where it runs between two other callbacks: the state that
  -- `serialize_game_state` gets, the server, and the record.
  unfoldable pub handle_signal : Server F D G → Option (GameState F) × Server F D G × V
  handle_signal s = (
    serialize_state s.handler.game,
    record s { running = false },
    log_server_end w world.now "server exited" (pos 0) "",
  )

-- `main`, which does not read its arguments.
unfoldable pub main :
    {F D G J V : Type 0} ⦃f : Float F⦄ ⦃d : Double D⦄
    → (F → D)
    → World F
    → Json J
    → ConfigJson F J
    → JsonWriter F D V
    → G
    → Outcome F D G V
main to_double world j c w tokenizer =
    main_outcome world w (set_up to_double world j c default_args tokenizer)
