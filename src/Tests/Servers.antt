-- ===== src/Tests/Servers.antt =====
-- The theorems on the server at concrete values.
use dog_game_cpp.Common.{
  List, [], ℤ, pos, negsuc, ltb_ℤ, ◌≤ℤ◌, ◌>>=◌, undefined, Result, if◌then◌else◌, arith, ℕ, ◌≡◌,
  refl, Bool, true, false, not, ◌∷◌, some, none, String, ok, err, ◌↔◌, ◌⊎◌, All,
}
use dog_game_cpp.Float.Fixed.{Fixed, fixed_float}
use dog_game_cpp.Collision.{EventSort}
use dog_game_cpp.Request.Parameters.{
  before_mark, get_request_string_without_parameters, get_request_parameters,
}
use dog_game_cpp.Api.Data.{
  records, bad_request, invalid_name, Request, Response, ApiHandler, get, success, map_list,
  make_string_response,
}
use dog_game_cpp.DataTypes.{PlayerRecordItem}
use dog_game_cpp.Request.Numbers.{decimal, write_digits}
use dog_game_cpp.Api.Records.{handle_get_records_action, handle_get_records_action_asks}
use dog_game_cpp.Api.{is_no_reading}
use dog_game_cpp.Api.Dispatch.{
  Outside, Endpoint, is_api_request, find_handler, handle_api_request, run_endpoint,
  default_response, handle_api_request_runs,
}
use dog_game_cpp.Http.{
  starts_with, api_prefix, after_prefix, handle_request, respond, leaving, map_response,
  get_map_list_responce,
}
use dog_game_cpp.Http.Answers.{handle_request_silent}
use dog_game_cpp.Http.Connection.{
  reading, handling, writing, Connection, start_server, Reach, read, answer, written, accept, turn,
  here, step, new_connection, Moment,
}
use dog_game_cpp.Http.Connection.Order.{IsAnswerAt, IsOrderly, Reach-IsOrderly}
use dog_game_cpp.Tests.Sorting.{sort_events}
use dog_game_cpp.Tests.Whole.{whole_double}
use dog_game_cpp.Tests.Games.{game_of, same_token, to_whole}
use dog_game_cpp.Tests.Sessions.{lowest_loot}
use dog_game_cpp.Tests.Configs.{keys, read_storage}

instance abbrev pub fixed_sort : EventSort Fixed
fixed_sort = record { sort = sort_events }

abbrev pub outside : Outside Fixed ℕ String
outside = record {
  fuel = 2;
  json = keys;
  url_params = λ s. ok (("start", "1") ∷ []);
  draws = λ i j. lowest_loot;
  to_double = to_whole;
  get_retired_players = λ start max_items. ok [];
}

abbrev handler : ApiHandler Fixed ℕ ℕ
handler = record { game = record (game_of []) { storage = read_storage }; ticker = none }

abbrev pub plain : Request
plain = record {
  method = get;
  auth_type = "";
  text = "";
  http_version = 11;
  keep_alive = true;
  params = [];
}

records_found :
    ((is_api_request "/api/v1/game/records?start=1" ≡ true)
      × ((e : Endpoint) × (find_handler "/api/v1/game/records?start=1" ≡ some e)
          × (handle_api_request outside handler "/api/v1/game/records?start=1" plain
              ≡ run_endpoint outside e handler
                  (record plain { params = get_request_parameters (("start", "1") ∷ []) }))))
    ⊎ ((is_api_request "/api/v1/game/records?start=1" ≡ false)
        × (find_handler "/api/v1/game/records?start=1" ≡ none)
        × (handle_api_request outside handler "/api/v1/game/records?start=1" plain
            ≡ some (ok (handler, default_response))))
records_found =
    handle_api_request_runs outside handler "/api/v1/game/records?start=1" plain
      (("start", "1") ∷ []) refl

-- PostgreSQL refuses a negative limit.
abbrev table : ℤ → ℤ → Result (List PlayerRecordItem)
table start max_items = if ltb_ℤ max_items (pos 0) then err undefined else ok []

abbrev fewer_than_none : Request
fewer_than_none = record plain { params = ("maxItems", "-1") ∷ ("start", "0") ∷ [] }

negative_limit :
    ((negsuc 0 ≤ℤ pos 100)
      × (handle_get_records_action table handler fewer_than_none ≡ (
          table (pos 0) (negsuc 0) >>= λ items.
          ok (handler, make_string_response fewer_than_none success (records items) none))))
    ⊎ ((pos 101 ≤ℤ negsuc 0)
        × (handle_get_records_action table handler fewer_than_none
            ≡ ok (handler, make_string_response fewer_than_none bad_request invalid_name none)))
unfolding decimal write_digits
negative_limit =
    handle_get_records_action_asks table handler fewer_than_none (pos 0) (negsuc 0) refl refl refl
      (omega arith, omega arith) (omega arith, omega arith)

page_not_answered :
    (handle_request outside handler "/index.html" plain ≡ some (ok (handler, none))) ↔ (
      (handler ≡ handler)
      × (is_api_request "/index.html" ≡ false)
      × (is_no_reading plain.method ≡ false)
      × (starts_with api_prefix "/index.html" ≡ false))
page_not_answered = handle_request_silent outside handler handler "/index.html" plain

abbrev pub kept_open : Response Fixed → Bool
kept_open r = not r.keep_alive

abbrev list_response : Response Fixed
list_response = make_string_response plain success (map_list (("id", "name") ∷ [])) none

abbrev answered_once : Connection Fixed
answered_once = record {
  phase = reading;
  asked = ("/api/v1/maps", plain) ∷ [];
  answered = list_response ∷ [];
}

abbrev asking : Connection Fixed
asking = record {
  phase = handling "/api/v1/maps" plain;
  asked = ("/api/v1/maps", plain) ∷ [];
  answered = [];
}

-- The one moment of the tests.
abbrev pub now : Unit {0} → Moment Fixed
now w = record { draws = outside.draws; get_retired_players = outside.get_retired_players }

abbrev answering : Connection Fixed
answering = record asking { phase = writing list_response }

list_is_sent :
    handle_request outside handler "/api/v1/maps" plain ≡ some (ok (handler, some list_response))
unfolding handle_request respond leaving map_response get_map_list_responce after_prefix starts_with
    is_api_request get_request_string_without_parameters before_mark
list_is_sent = refl

after_one_request :
    Reach outside now kept_open (start_server handler) (record {
      handler = handler;
      connections = answered_once ∷ [];
      failed = false;
      running = true;
    })
unfolding make_string_response
after_one_request =
    step
      (step
        (step (step here tt (accept refl refl)) tt
          (turn [] [] new_connection asking refl refl (read "/api/v1/maps" plain refl) refl))
        tt (turn [] [] asking answering refl refl (answer refl list_is_sent) refl))
      tt
      (turn [] [] answering answered_once refl refl (written {resp = list_response} refl refl) refl)

list_sent_in_order : All (IsOrderly (IsAnswerAt ℕ outside now) kept_open) (answered_once ∷ [])
list_sent_in_order = Reach-IsOrderly outside now kept_open handler after_one_request
