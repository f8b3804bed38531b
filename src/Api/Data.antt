-- ===== src/Api/Data.antt =====
-- The data of src/network/api_handler.h and src/network/api_handler.cpp: requests, responses and
-- the handler.
use dog_game_cpp.Common.{ℕ, ℤ, Bool, true, List, Option, String}
use dog_game_cpp.DataTypes.{LootInfo, PlayerRecordItem}
use dog_game_cpp.Session.Data.{Player}
use dog_game_cpp.Game.Data.{Game}

pub data Verb : Type 0 where
  get head post other : Verb

-- `http::status`; `success` is `http::status::ok`.
pub data Status : Type 0 where
  success bad_request unauthorized not_found method_not_allowed : Status

-- The texts of json_serializer, by what they are made from.
pub data Body (F : Type 0) : Type 0 where
  empty braces map_not_found_body bad_request_body : Body F
  mapped : String → String → Body F
  auth : String → ℤ → Body F
  player_info : List (Player F) → Body F
  dogs_info : List (Player F) → List (LootInfo F) → Body F
  records : List PlayerRecordItem → Body F
  -- the ids and names of the maps, and the text of one map
  map_list : List (String × String) → Body F
  map_content : String → Body F

pub record Request : Type 0 where
  pub method : Verb
  pub auth_type : String
  pub text : String
  pub http_version : ℕ
  pub keep_alive : Bool
  pub params : List (String × String)

-- Every response is application/json; `no_cache` is the header `Cache-Control: no-cache`, and `allow`
-- the header of that name.
pub record Response (F : Type 0) : Type 0 where
  pub status : Status
  pub body : Body F
  pub http_version : ℕ
  pub keep_alive : Bool
  pub allow : Option String
  pub no_cache : Bool

-- `ticker` is the pointer `ticker_`, with whether the ticker has started.
pub record ApiHandler (F D G : Type 0) : Type 0 where
  pub game : Game F D G
  pub ticker : Option Bool

module _ {F : Type 0} where
  abbrev pub only_post_method_allowed : Body F
  only_post_method_allowed = mapped "invalidMethod" "Only POST method is expected"

  abbrev pub join_game_req_parse_error : Body F
  join_game_req_parse_error = mapped "invalidArgument" "Join game request parse error"

  abbrev pub invalid_name : Body F
  invalid_name = mapped "invalidArgument" "Invalid name"

  abbrev pub invalid_method : Body F
  invalid_method = mapped "invalidMethod" "Invalid method"

  abbrev pub auth_header_missing : Body F
  auth_header_missing = mapped "invalidToken" "Authorization header is missing"

  abbrev pub player_token_not_found : Body F
  player_token_not_found = mapped "unknownToken" "Player token has not been found"

  abbrev pub auth_header_required : Body F
  auth_header_required = mapped "invalidToken" "Authorization header is required"

  abbrev pub invalid_endpoint : Body F
  invalid_endpoint = mapped "badRequest" "Invalid endpoint"

  abbrev pub failed_to_parse_tick : Body F
  failed_to_parse_tick = mapped "invalidArgument" "Failed to parse tick request JSON"

  -- `MakeStringResponse`, for a request.
  unfoldable pub make_string_response : Request → Status → Body F → Option String → Response F
  make_string_response r status body allow = record {
    status = status;
    body = body;
    http_version = r.http_version;
    keep_alive = r.keep_alive;
    allow = allow;
    no_cache = true;
  }
