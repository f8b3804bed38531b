-- ===== src/Http.antt =====
-- `RequestHandler` of src/network/request_handler.h: how a request finds its response. The strand
-- runs the requests for the API one at a time, so that a request is one step on the handler's state.
-- Connection has the connections of src/network/http_server.h.
pub mod Maps
pub mod Answers
pub mod Configured
pub mod Connection
pub mod Stream
use Prim.Native.Char.{code}
use dog_game_cpp.Common.{
  ℕ, Bool, true, false, not, ◌&&◌, List, [], ◌∷◌, map, Option, some, none, String, if◌then◌else◌,
  ◌==◌, Result, ok, err, ◌>>=◌,
}
use dog_game_cpp.Float.{Float}
use dog_game_cpp.Collision.{EventSort}
use dog_game_cpp.LootGenerator.{Double}
use dog_game_cpp.MapModel.{GameMap}
use dog_game_cpp.Game.Data.{Game, MapStorage, TokenGenerator, map_at}
use dog_game_cpp.Api.{is_no_reading, allow_headers}
use dog_game_cpp.Api.Data.{
  Request, Response, ApiHandler, Body, Verb, get, success, bad_request, not_found,
  method_not_allowed, empty, map_not_found_body, bad_request_body, map_list, map_content,
  invalid_method, make_string_response,
}
use dog_game_cpp.Api.Dispatch.{Outside, is_api_request, handle_api_request}

-- What `remove_prefix` leaves of a text that starts with the prefix.
unfoldable pub after_prefix : String → String → Option String
after_prefix String.[] s = some s
after_prefix (String.◌∷◌ c p) String.[] = none
after_prefix (String.◌∷◌ c p) (String.◌∷◌ d s) =
    let rest = after_prefix p s in if code c == code d then rest else none

unfoldable pub starts_with : String → String → Bool
starts_with prefix target = elim (after_prefix prefix target) [ none ↦ false | some _ ↦ true ]

abbrev pub api_prefix : String
api_prefix = "/api/"

abbrev pub map_prefix : String
map_prefix = "/api/v1/maps"

module _ {F : Type 0} where
  -- `GetMapListResponce`, from the maps in the order of their keys.
  unfoldable pub get_map_list_responce : MapStorage F → Body F
  get_map_list_responce storage =
      map_list (map (λ (x : String × GameMap F). (x.1.id, x.1.name)) storage.maps)

  -- `GetMapContentResponce`
  unfoldable pub get_map_content_responce : MapStorage F → String → Result String
  get_map_content_responce storage id = map_at storage.maps_json id

  -- The body of the answer: a HEAD has none.
  unfoldable pub content_body : Verb → String → Body F
  content_body get responce = map_content responce
  content_body _ responce = empty

  -- What becomes of the text of a map; there is no such map where it is empty.
  unfoldable pub content_response : Request → String → Response F
  content_response r String.[] = make_string_response r not_found map_not_found_body none
  content_response r (String.◌∷◌ c t) =
      make_string_response r success (content_body r.method (String.◌∷◌ c t)) none

  -- The answer to a target that goes on with `rest` after `/api/v1/maps`.
  unfoldable pub map_response : MapStorage F → Request → String → Result (Response F)
  map_response storage r String.[] =
      ok (make_string_response r success (get_map_list_responce storage) none)
  map_response storage r (String.◌∷◌ c id) =
      get_map_content_responce storage id >>= λ responce. ok (content_response r responce)

  -- The part of `operator()` for the targets that are not of the API. `none` is that `send` is not
  -- called at all.
  unfoldable pub respond : MapStorage F → String → Request → Result (Option (Response F))
  respond storage target r =
      if is_no_reading r.method
      then ok (some (make_string_response r method_not_allowed invalid_method (some allow_headers)))
      else if starts_with api_prefix target && not (starts_with map_prefix target)
      then ok (
          some (record (make_string_response r bad_request bad_request_body none) {
            no_cache = false;
          }))
      else elim (after_prefix map_prefix target) [
        | some rest ↦ (map_response storage r rest >>= λ resp. ok (some resp))
        | none ↦ ok none
      ]

-- `send` with whatever a handler of the API returns.
unfoldable pub send_all {ℓ μ} : {A : Type ℓ} {B : Type μ} → Result (A × B) → Result (A × Option B)
send_all (ok (h, resp)) = ok (h, some resp)
send_all (err thrown) = err thrown

-- What is answered without a change of the handler's state.
unfoldable pub leaving {ℓ μ} : {A : Type ℓ} {B : Type μ} → A → Result B → Result (A × B)
leaving h (ok resp) = ok (h, resp)
leaving h (err thrown) = err thrown

-- `operator()`: the handler's state after it, and the response that is sent.
unfoldable pub handle_request :
    {F D G J : Type 0} ⦃f : Float F⦄ ⦃d : Double D⦄ ⦃s : EventSort F⦄ ⦃t : TokenGenerator G⦄
    → Outside F D J
    → ApiHandler F D G
    → String
    → Request
    → Option (Result (ApiHandler F D G × Option (Response F)))
handle_request out h target r =
    if is_api_request target
    then elim (handle_api_request out h target r) [
      | none ↦ none
      | some result ↦ some (send_all result)
    ]
    else some (leaving h (respond h.game.storage target r))
