-- ===== src/Tests/Programs.antt =====
-- The theorems on the program at concrete values.
use mathlib.Core.Option.{some-injective}
use dog_game_cpp.Common.{
  int_add, ◌<◌, length, Bool-cases, subst, inl, inr, ℕ, ◌*ℤ◌, ◌+ℤ◌, pos, negsuc, to_int, ◌≡◌, refl,
  true, false, ◌||◌, List, [], ◌∷◌, some, none, String, str_eq, if◌then◌else◌, lookup, ok, err,
  out_of_range, put, arith, ◌⊎◌, All, text_lt, put_all,
}
use dog_game_cpp.Float.Fixed.{Fixed, fixed_float, Fixed-IsOrdered}
use dog_game_cpp.MapModel.{GameMap, make_map, add_road, add_loot}
use dog_game_cpp.Game.Data.{Game, MapStorage, make_game}
use dog_game_cpp.Game.{create_game, set_loot_parameters}
use dog_game_cpp.Request.{Json}
use dog_game_cpp.MapParser.{
  ConfigJson, parse_each, add_all, empty_storage, coordinate, text_at, float_at, int_at, parse_road,
  parse_objects, read_defaults, parse_map, read_settings, read_loot_config, read_maps, parse_maps,
  parse_loot,
}
use dog_game_cpp.EventLog.{log_start_server}
use dog_game_cpp.Dog.{make_dog, get_state}
use dog_game_cpp.LootGenerator.{make_loot_generator}
use dog_game_cpp.Session.Data.{GameSession, make_session, player_state}
use dog_game_cpp.Session
use dog_game_cpp.Session.{make_player, get_session_state}
use dog_game_cpp.Game.{add_player, open_session, find_session, replace_session}
use dog_game_cpp.Request.{parse_join_game_request}
use dog_game_cpp.Request.Parameters.{
  before_mark, get_request_parameters, get_request_string_without_parameters,
}
use dog_game_cpp.Api.{handle_join_game_request, handle_auth_request}
use dog_game_cpp.Api.Data.{
  ApiHandler, Request, Response, get, post, success, auth, make_string_response,
}
use dog_game_cpp.Api.Dispatch.{
  Outside, is_api_request, find_handler, handle_api_request, run_endpoint,
}
use dog_game_cpp.Http.{handle_request, send_all, content_body, after_prefix}
use dog_game_cpp.Ticker.{make_api_handler, tick_game}
use dog_game_cpp.Api.Sound.{IsSound}
use dog_game_cpp.Game.Rounds.{CanTick}
use dog_game_cpp.Api.Play.{Play, Plays}
use dog_game_cpp.Http.Connection.Games.{Reach-Plays, handle_request-Play}
use dog_game_cpp.Http.Connection.{
  Server, start_server, Reach, here, step, accept, turn, read, answer, Connection, handling,
  writing, new_connection,
}
use dog_game_cpp.Main.Restart.{main-handle_signal}
use dog_game_cpp.DataTypes.Directions.{string_from_direction}
use dog_game_cpp.Game.Saving.{GameState, create_game_state, serialize_state, restore_sessions}
use dog_game_cpp.Main.Arguments.{options_of, parse_command_line, parse_command_line-options_of}
use dog_game_cpp.Main.{
  Args, default_args, World, runs, read_json, restore_saved, set_up, main_outcome, main,
  handle_signal,
}
use dog_game_cpp.Main.Start.{main-handle_request, main-IsSound}
use dog_game_cpp.Tests.Whole.{whole_double, whole_IsDouble, lowest-IsUniform}
use dog_game_cpp.Tests.Sorting.{sort_events-IsSort}
use dog_game_cpp.Tests.Games.{same_token, to_whole}
use dog_game_cpp.Tests.Sessions.{lowest_loot}
use dog_game_cpp.MapParser.Storage.{maps_of, last_object}
use dog_game_cpp.Tests.Servers.{now, fixed_sort, outside, plain, kept_open}
use dog_game_cpp.Tests.Texts.{plain_texts}
use dog_game_cpp.Tests.Configs.{read_road, config_keys, of_int-IsNumber}
use dog_game_cpp.Tests.Values.{whole}

-- A file with one map, which has one road and one type of loot.
abbrev file_keys : Json String
file_keys = record {
  parse = λ s. ok s;
  field = λ v k. ok (if str_eq k "mapId" then "id" else k);
  as_string = λ v. ok v;
  as_object = λ v. ok v;
  contains = λ v k. str_eq k "x1" || str_eq k "lootGeneratorConfig";
  as_int64 = λ v. ok (if str_eq v "x1" then pos 10 else pos 0);
}

abbrev file_config : ConfigJson Fixed String
file_config = record config_keys {
  as_array = λ v.
      ok (if str_eq v "maps" || str_eq v "roads" || str_eq v "lootTypes" then "id" ∷ [] else []);
}

abbrev small_world : World Fixed
small_world = record {
  file = λ path. some "file";
  data_base = ok tt;
  port = ok tt;
  read_archive = λ archive. ok [];
  hardware_concurrency = 2;
  now = "now";
  what = λ e. "error";
}

abbrev small_map : GameMap Fixed
small_map = record {
  id = "id";
  name = "name";
  roads = read_road ∷ [];
  offices = [];
  loots =
      record {
        name = "name";
        file = "file";
        type = "type";
        rotation = negsuc 0;
        color = "";
        scale = whole 1;
        score = pos 0;
      }
      ∷ [];
  dog_speed = whole 0;
  bag_capacity = pos 1;
}

abbrev small_storage : MapStorage Fixed
small_storage = record empty_storage {
  maps = ("id", small_map) ∷ [];
  maps_json = ("id", "{}") ∷ [];
  loot_config = ("period", whole 1) ∷ ("probability", whole 1) ∷ [];
}

abbrev new_game : Game Fixed ℕ ℕ
new_game = record {
  storage = small_storage;
  generator = 0;
  sessions = [];
  save_path = "sessions_state.tmp";
  default_dog_speed = whole 1;
  dog_retirement_time = whole 0;
  tick_period = pos 100;
  spawn_in_random_points = false;
  loot_period = whole 1;
  loot_probability = whole 1;
  save_period = pos 15000;
  time_without_saving = pos 0;
}

abbrev new_handler : ApiHandler Fixed ℕ ℕ
new_handler = record { game = new_game; ticker = some false }

abbrev started : Server Fixed ℕ ℕ
started = start_server new_handler

file_is_parsed : parse_maps file_keys file_config "file" empty_storage ≡ ok small_storage
unfolding parse_maps read_settings read_loot_config read_maps parse_map text_at float_at int_at
    coordinate parse_road parse_loot parse_objects parse_each read_defaults add_all add_road
    add_loot make_map put text_lt ◌*ℤ◌
file_is_parsed = refl

program_starts :
    main to_whole small_world file_keys file_config plain_texts 0
    ≡ runs started (log_start_server plain_texts "now" "0.0.0.0" 8080 "server started")
unfolding main set_up main_outcome read_json restore_saved create_game set_loot_parameters make_game
    make_api_handler ◌*ℤ◌
program_starts = rw file_is_parsed refl

abbrev file_outside : Outside Fixed ℕ String
file_outside = record outside { json = file_keys }

abbrev join_request : Request
join_request = record plain { method = post }

abbrev joined_session : GameSession Fixed ℕ
joined_session = record {
  map_id = "id";
  loot_generator = make_loot_generator (pos 1000) 1;
  players =
      record {
        id = pos 0;
        name = "userName";
        token = "token";
        dog = make_dog small_map (pos 3);
        address = 0;
      }
      ∷ [];
  loots_info = [];
  player_id = pos 1;
  map = some small_map;
  loot_id = pos 0;
  allocated = 1;
}

abbrev joined_handler : ApiHandler Fixed ℕ ℕ
joined_handler = record {
  game = record new_game { sessions = joined_session ∷ []; generator = 1 };
  ticker = some true;
}

abbrev joined_response : Response Fixed
joined_response = make_string_response join_request success (auth "token" (pos 0)) none

player_joins :
    handle_request file_outside new_handler "/api/v1/game/join" join_request
    ≡ some (ok (joined_handler, some joined_response))
unfolding handle_request handle_api_request find_handler is_api_request run_endpoint before_mark
    get_request_string_without_parameters handle_join_game_request handle_auth_request
    parse_join_game_request add_player open_session find_session replace_session make_session
    Session.add_player make_player send_all ◌*ℤ◌ int_add get_request_parameters to_int put_all ◌+ℤ◌
    put make_string_response
player_joins = refl

small_maps :
    (id : String) (m : GameMap Fixed)
    → lookup id small_storage.maps ≡ some m
    → (0 < length m.roads) × (0 < length m.loots)
small_maps id m e = elim (Bool-cases (str_eq "id" id)) [
  | inl y ↦
      let same : small_map ≡ m = some-injective _ _ (rw y at e) in
      subst (λ (x : GameMap Fixed). (0 < length x.roads) × (0 < length x.loots)) same
        (omega arith, omega arith)
  | inr n ↦ let q = rw n at e in cc
]

abbrev joining : Connection Fixed
joining = record {
  phase = handling "/api/v1/game/join" join_request;
  asked = ("/api/v1/game/join", join_request) ∷ [];
  answered = [];
}

abbrev told : Connection Fixed
told = record joining { phase = writing joined_response }

after_joining :
    Reach file_outside now kept_open started
      (record { handler = joined_handler; connections = told ∷ []; failed = false; running = true })
after_joining =
    step
      (step (step here tt (accept refl refl)) tt (
        turn [] [] new_connection joining refl refl (read "/api/v1/game/join" join_request refl)
          refl))
      tt (turn [] [] joining told refl refl (answer refl player_joins) refl)

map_of_started :
    (content : String) × (xs : List String) × (read_json small_world file_keys "./data/config.json"
      ≡ ok content)
    × (maps_of file_keys file_config content ≡ ok xs)
    × (((last_object file_keys file_config "id" xs none ≡ none)
          × (handle_request file_outside joined_handler "/api/v1/maps/id" plain
              ≡ some (err out_of_range)))
        ⊎ ((o : String) × (last_object file_keys file_config "id" xs none ≡ some o)
            × (handle_request file_outside joined_handler "/api/v1/maps/id" plain
                ≡ some (
                    ok (
                      joined_handler,
                      some (
                          make_string_response plain success
                            (content_body get (file_config.serialize o))
                            none),
                    )))))
unfolding after_prefix
map_of_started =
    main-handle_request file_outside now small_world file_config plain_texts kept_open tt 0
      "/api/v1/maps/id" plain "/" "id" program_starts (λ o e. cc) after_joining refl refl

next_tick_returns :
    IsSound joined_handler.game
    × ((w : Unit {0}) (ticks : ℕ)
        → All (CanTick (to_int (pos ticks))) joined_handler.game.sessions
        → (g' : Game Fixed ℕ ℕ) × (tick_game (λ i j. lowest_loot) joined_handler.game ticks ≡ ok g')
          × IsSound g')
unfolding after_joining
next_tick_returns =
    main-IsSound file_outside now small_world file_config plain_texts kept_open 0 Fixed-IsOrdered
      whole_IsDouble (sort_events-IsSort Fixed-IsOrdered)
      (λ w i k. (lowest-IsUniform, lowest-IsUniform, lowest-IsUniform)) of_int-IsNumber small_maps
      program_starts refl after_joining (((tt, λ t e. tt), λ t e. tt), λ t e. tt)

started_game_plays : Plays to_whole (λ (w : Unit {0}) i j. lowest_loot) new_game joined_handler.game
started_game_plays = Reach-Plays file_outside now kept_open after_joining refl

join_is_play : Play to_whole (λ i j. lowest_loot) new_game joined_handler.game
join_is_play =
    handle_request-Play file_outside new_handler joined_handler "/api/v1/game/join" join_request
      (some joined_response) player_joins

abbrev own_args : Args
own_args = record default_args {
  save_file = "state";
  tick_period = pos 50;
  spawn_random_points = true;
}

arguments_read_back : parse_command_line (ok (options_of own_args)) ≡ ok (some own_args)
arguments_read_back =
    parse_command_line-options_of own_args (omega arith, omega arith) (omega arith, omega arith)

abbrev saved_state : GameState Fixed
saved_state =
    record {
      map_id = "id";
      players =
          record {
            id = pos 0;
            name = "userName";
            token = "token";
            dog = record {
              pos = record { x = whole 0; y = whole 0 };
              dir = "U";
              score = pos 0;
              idle_time = pos 0;
              play_time = pos 0;
              cur_road = pos 0;
              bag = [];
            };
          }
          ∷ [];
      loots_info_state = [];
    }
    ∷ []

next_start_restores :
    (restored : Game Fixed ℕ ℕ) × (restore_sessions to_whole new_game saved_state ≡ ok restored)
    × (create_game_state restored ≡ saved_state)
unfolding handle_signal serialize_state create_game_state get_session_state player_state get_state
    make_dog string_from_direction ◌*ℤ◌
next_start_restores =
    main-handle_signal file_outside now small_world file_config plain_texts kept_open 0 0
      saved_state program_starts after_joining refl program_starts refl
