-- ===== src/Api/Dispatch.antt =====
-- `IsApiRequest`, `InitApiRequestHandlers` and `HandleApiRequest` of src/network/api_handler.cpp.
use dog_game_cpp.Common.{
  lookup, ℕ, ℤ, ◌≡◌, refl, Bool, true, false, List, [], ◌∷◌, Option, some, none, String, str_eq,
  any_of, map, sym, ◌∙◌, Result, ok, err, ◌⊎◌, inl, inr, Bool-cases,
}
use dog_game_cpp.Float.{Float}
use dog_game_cpp.DataTypes.{PlayerRecordItem}
use dog_game_cpp.Collision.{EventSort}
use dog_game_cpp.LootGenerator.{Double}
use dog_game_cpp.Session.Looting.{LootDraw}
use dog_game_cpp.Game.Data.{TokenGenerator}
use dog_game_cpp.Request.{Json}
use dog_game_cpp.Request.Parameters.{get_request_string_without_parameters, get_request_parameters}
use dog_game_cpp.Api.{
  handle_get_players_request, handle_get_game_state, handle_player_action, handle_tick_action,
  handle_join_game_request,
}
use dog_game_cpp.Api.Data.{Request, Response, ApiHandler, success, empty}
use dog_game_cpp.Api.Records.{handle_get_records_action}

pub data Endpoint : Type 0 where
  game players state action tick records : Endpoint

abbrev pub game_endpoint : String
game_endpoint = "/api/v1/game/join"

abbrev pub players_endpoint : String
players_endpoint = "/api/v1/game/players"

abbrev pub state_endpoint : String
state_endpoint = "/api/v1/game/state"

abbrev pub action_endpoint : String
action_endpoint = "/api/v1/game/player/action"

abbrev pub tick_endpoint : String
tick_endpoint = "/api/v1/game/tick"

abbrev pub records_endpoint : String
records_endpoint = "/api/v1/game/records"

-- The set of `IsApiRequest`.
abbrev pub api_endpoints : List String
api_endpoints =
    game_endpoint ∷ players_endpoint ∷ state_endpoint ∷ action_endpoint ∷ tick_endpoint
    ∷ records_endpoint ∷ []

unfoldable pub is_api_request : String → Bool
is_api_request request =
    any_of (λ e. str_eq e (get_request_string_without_parameters request)) api_endpoints

-- `resp_map_`, as `InitApiRequestHandlers` fills it.
abbrev pub resp_map : List (String × Endpoint)
resp_map =
    (game_endpoint, game)
    ∷ (players_endpoint, players)
    ∷ (state_endpoint, state)
    ∷ (action_endpoint, action)
    ∷ (tick_endpoint, tick)
    ∷ (records_endpoint, records)
    ∷ []

unfoldable pub find_handler : String → Option Endpoint
find_handler request = lookup (get_request_string_without_parameters request) resp_map

-- What the handlers need from outside: the fuel of `GetAuthToken`, boost::json and boost::urls, the
-- random numbers of a tick, the conversion to `double` and the table of retired players.
pub record Outside (F D J : Type 0) : Type 0 where
  pub fuel : ℕ
  pub json : Json J
  pub url_params : String → Result (List (String × String))
  pub draws : ℕ → ℕ → LootDraw F
  pub to_double : F → D
  pub get_retired_players : ℤ → ℤ → Result (List PlayerRecordItem)

-- A response that was never filled in.
abbrev pub default_response : {F : Type 0} → Response F
default_response = record {
  status = success;
  body = empty;
  http_version = 11;
  keep_alive = true;
  allow = none;
  no_cache = false;
}

module _ {F D G J : Type 0} ⦃f : Float F⦄ ⦃d : Double D⦄ ⦃s : EventSort F⦄ ⦃t : TokenGenerator G⦄
    (out : Outside F D J) where
  -- The handler of an endpoint.
  unfoldable pub run_endpoint :
      Endpoint → ApiHandler F D G → Request → Option (Result (ApiHandler F D G × Response F))
  run_endpoint game h r = some (handle_join_game_request out.to_double out.json h r)
  run_endpoint players h r = handle_get_players_request out.fuel h r
  run_endpoint state h r = handle_get_game_state out.fuel h r
  run_endpoint action h r = handle_player_action out.json out.fuel h r
  run_endpoint tick h r = some (handle_tick_action out.json out.draws h r)
  run_endpoint records h r = some (handle_get_records_action out.get_retired_players h r)

  unfoldable pub handle_api_request :
      ApiHandler F D G → String → Request → Option (Result (ApiHandler F D G × Response F))
  handle_api_request h request r = elim (find_handler request) [
    | none ↦ some (ok (h, default_response))
    | some e ↦ elim (out.url_params request) [
      | err x ↦ some (err x)
      | ok found ↦ run_endpoint e h (record r { params = get_request_parameters found })
    ]
  ]

-- The keys of a map are the texts that `lookup` finds.
lookup-any_of {ℓ} :
    {V : Type ℓ} (k : String) (m : List (String × V))
    → any_of (λ e. str_eq e k) (map (λ (x : String × V). x.0) m) ≡ true
    → (v : V) × (lookup k m ≡ some v)
lookup-any_of k [] e = cc
lookup-any_of k ((j, v) ∷ m) e = elim (Bool-cases (str_eq j k)) [
  | inl y ↦ (v, rw y refl)
  | inr n ↦ let (w, q) = lookup-any_of k m (sym (rw n refl) ∙ e) in (w, rw n q)
]

any_of-lookup {ℓ} :
    {V : Type ℓ} (k : String) (m : List (String × V))
    → any_of (λ e. str_eq e k) (map (λ (x : String × V). x.0) m) ≡ false
    → lookup k m ≡ none
any_of-lookup k [] e = refl
any_of-lookup k ((j, v) ∷ m) e = elim (Bool-cases (str_eq j k)) [
  | inl y ↦ cc
  | inr n ↦ rw n (any_of-lookup k m (sym (rw n refl) ∙ e))
]

module _ {F D G J : Type 0} ⦃f : Float F⦄ ⦃d : Double D⦄ ⦃s : EventSort F⦄
    ⦃t : TokenGenerator G⦄ where
  found_runs :
      (out : Outside F D J) (h : ApiHandler F D G) (request : String) (r : Request) (e : Endpoint)
      (found : List (String × String))
      → find_handler request ≡ some e
      → out.url_params request ≡ ok found
      → handle_api_request out h request r
        ≡ run_endpoint out e h (record r { params = get_request_parameters found })
  unfolding handle_api_request
  found_runs out h request r e found q u = rw (handle_api_request, q, u) refl

  none_found :
      (out : Outside F D J) (h : ApiHandler F D G) (request : String) (r : Request)
      → find_handler request ≡ none
      → handle_api_request out h request r ≡ some (ok (h, default_response))
  unfolding handle_api_request
  none_found out h request r q = rw (handle_api_request, q) refl

  -- If the parameters of a target can be read, there are two cases. `IsApiRequest` accepts the
  -- target, and then `HandleApiRequest` finds the handler of an endpoint for it, which answers with
  -- these parameters. Or it does not accept it, and then no handler is found, and the response is
  -- one that was never filled in.
  pub handle_api_request_runs :
      (out : Outside F D J) (h : ApiHandler F D G) (request : String) (r : Request)
      (found : List (String × String))
      → out.url_params request ≡ ok found
      → ((is_api_request request ≡ true)
          × ((e : Endpoint) × (find_handler request ≡ some e)
              × (handle_api_request out h request r
                  ≡ run_endpoint out e h (record r { params = get_request_parameters found }))))
        ⊎ ((is_api_request request ≡ false)
            × (find_handler request ≡ none)
            × (handle_api_request out h request r ≡ some (ok (h, default_response))))
  unfolding is_api_request find_handler
  handle_api_request_runs out h request r found u = elim (Bool-cases (is_api_request request)) [
    | inl y ↦
        let (e, q) = lookup-any_of (get_request_string_without_parameters request) resp_map y in
        inl (y, (e, q, found_runs out h request r e found q u))
    | inr n ↦
        let q = any_of-lookup (get_request_string_without_parameters request) resp_map n in
        inr (n, q, none_found out h request r q)
  ]
