-- ===== src/Api.antt =====
-- src/network/api_handler.cpp: the handlers of the game's requests. Each gives the handler with its
-- game afterwards and the response, or the exception that leaves it. Where the loop of
-- `GetAuthToken` does not end on the given fuel, the answer is `none`.
pub mod Data
pub mod Answers
pub mod Steering
pub mod Records
pub mod Dispatch
pub mod Keeps
pub mod Play
pub mod Steps
pub mod Storage
pub mod Sound
pub mod Saved
use dog_game_cpp.Common.{
  ℕ, ℤ, Bool, true, false, not, ◌||◌, List, [], ◌∷◌, Option, some, none, String, str_eq,
  if◌then◌else◌, Result, ok, err, ◌>>=◌, find_if, map_not_found, empty_name, undefined, or_fail,
}
use dog_game_cpp.Float.{Float}
use dog_game_cpp.DataTypes.{DogDirection}
use dog_game_cpp.Collision.{EventSort}
use dog_game_cpp.LootGenerator.{Double}
use dog_game_cpp.Dog.{Dog, set_speed}
use dog_game_cpp.Session.Data.{Player, GameSession, has_token as has_player_token}
use dog_game_cpp.Session.Looting.{LootDraw}
use dog_game_cpp.Game.Data.{Game, TokenGenerator}
use dog_game_cpp.Game.{
  find_map, has_token, get_session_for_token, find_all_players_for_auth_info,
  get_loots_for_auth_info, get_player, has_session_with_auth_info, add_player, move_dogs,
  generate_loot,
}
use dog_game_cpp.Request.{
  Json, get_auth_token, is_valid_auth_token, parse_join_game_request, get_move_direction,
  parse_delta_time_request,
}
use Data.{
  Verb, get, head, post, other, Status, success, bad_request, unauthorized, not_found,
  method_not_allowed, Body, empty, braces, map_not_found_body, auth, player_info, dogs_info,
  Request, Response, ApiHandler, only_post_method_allowed, join_game_req_parse_error, invalid_name,
  invalid_method, auth_header_missing, player_token_not_found, auth_header_required,
  invalid_endpoint, failed_to_parse_tick, make_string_response,
}

-- What follows `GetAuthToken(auth_type)`.
unfoldable pub with_token {ℓ} : {A : Type ℓ} → ℕ → String → (String → Result A) → Option (Result A)
with_token fuel auth_type next = elim (get_auth_token fuel auth_type) [
  | err e ↦ some (err e)
  | ok none ↦ none
  | ok (some token) ↦ some (next token)
]

-- Change the first element that passes the test.
unfoldable pub update_first {ℓ} : {A : Type ℓ} → (A → Bool) → (A → A) → List A → List A
update_first p change [] = []
update_first p change (x ∷ xs) = if p x then change x ∷ xs else x ∷ update_first p change xs

abbrev pub is_empty : String → Bool
is_empty s = str_eq s ""

-- `(method != get) && (method != head)`
abbrev pub is_no_reading : Verb → Bool
is_no_reading get = false
is_no_reading head = false
is_no_reading _ = true

abbrev allow_post : String
allow_post = "POST"

abbrev pub allow_headers : String
allow_headers = "GET, HEAD"

module _ {F D G : Type 0} where
  unfoldable pub handle_get_players_request :
      ℕ → ApiHandler F D G → Request → Option (Result (ApiHandler F D G × Response F))
  handle_get_players_request fuel h r =
      let say = λ (status : Status) (body : Body F) (allow : Option String).
        make_string_response r status body allow in
      if is_no_reading r.method
      then some (ok (h, say method_not_allowed invalid_method (some allow_headers)))
      else with_token fuel r.auth_type (λ auth_token.
        if is_empty auth_token
        then ok (h, say unauthorized auth_header_missing none)
        else (get_player h.game auth_token >>= λ player. elim player [
          | none ↦ ok (h, say unauthorized player_token_not_found none)
          | some _ ↦ find_all_players_for_auth_info h.game auth_token >>= λ players.
              ok (h, say success (elim r.method [ get ↦ player_info players | _ ↦ empty ]) none)
        ]))

  unfoldable pub handle_get_game_state :
      ℕ → ApiHandler F D G → Request → Option (Result (ApiHandler F D G × Response F))
  handle_get_game_state fuel h r =
      let say = λ (status : Status) (body : Body F) (allow : Option String).
        make_string_response r status body allow in
      if is_no_reading r.method
      then some (ok (h, say method_not_allowed invalid_method (some allow_headers)))
      else with_token fuel r.auth_type (λ auth_token.
        if is_empty auth_token || not (has_session_with_auth_info h.game auth_token)
        then (if is_empty auth_token || not (is_valid_auth_token auth_token 32)
            then ok (h, say unauthorized auth_header_missing none)
            else ok (h, say unauthorized player_token_not_found none))
        else elim r.method [
          | get ↦ find_all_players_for_auth_info h.game auth_token >>= λ players.
              get_loots_for_auth_info h.game auth_token >>= λ loots.
              ok (h, say success (dogs_info players loots) none)
          | _ ↦ ok (h, say success empty none)
        ])

module _ {F D G : Type 0} ⦃f : Float F⦄ where
  -- `player->GetDog()->set_speed(...)` on the player that the token finds.
  unfoldable pub steer : Game F D G → String → DogDirection → F → Game F D G
  steer g auth_token dir speed =
      let turn = λ (p : Player F). record p { dog = set_speed p.dog dir speed } in
      record g {
        sessions =
            update_first (has_token auth_token)
              (λ s. record s {
                players = update_first (has_player_token auth_token) turn s.players;
              })
              g.sessions;
      }

  -- The part of `HandlePlayerAction` for a token that a session has.
  unfoldable pub act : {J : Type 0} → Json J → Game F D G → String → String → Result (Game F D G)
  act j g auth_token body = do
    session ← or_fail (get_session_for_token g auth_token) undefined
    m ← find_map g session.map_id
    player ← get_player g auth_token
    dir ← get_move_direction j body
    ok (
        steer g auth_token dir
          (if f.lt (f.literal 0 0) m.dog_speed then m.dog_speed else g.storage.default_dog_speed))

  unfoldable pub handle_player_action :
      {J : Type 0}
      → Json J
      → ℕ
      → ApiHandler F D G
      → Request
      → Option (Result (ApiHandler F D G × Response F))
  handle_player_action j fuel h r =
      let say = λ (status : Status) (body : Body F). make_string_response r status body none in
      elim r.method [
        | post ↦ with_token fuel r.auth_type (λ auth_token.
            if is_empty auth_token
            then ok (h, say unauthorized auth_header_required)
            else if has_session_with_auth_info h.game auth_token
            then (act j h.game auth_token r.text >>= λ g.
                ok (record h { game = g }, say success braces))
            else ok (h, say unauthorized player_token_not_found))
        | _ ↦ some (ok (h, say method_not_allowed invalid_method))
      ]

  unfoldable pub handle_tick_action :
      {J : Type 0} ⦃d : Double D⦄ ⦃s : EventSort F⦄
      → Json J
      → (ℕ → ℕ → LootDraw F)
      → ApiHandler F D G
      → Request
      → Result (ApiHandler F D G × Response F)
  handle_tick_action j draws h r =
      let say = λ (status : Status) (body : Body F). make_string_response r status body none in
      elim r.method [
        | post ↦ elim h.ticker [
          | some _ ↦ ok (h, say bad_request invalid_endpoint)
          | none ↦ elim (parse_delta_time_request j r.text) [
            | err _ ↦ ok (h, say bad_request failed_to_parse_tick)
            | ok delta_time ↦ generate_loot draws h.game delta_time >>= λ g.
                move_dogs g delta_time >>= λ g'. ok (record h { game = g' }, say success braces)
          ]
        ]
        | _ ↦ ok (h, say method_not_allowed invalid_method)
      ]

module _ {F D G : Type 0} ⦃f : Float F⦄ ⦃d : Double D⦄ (to_double : F → D) where
  unfoldable pub handle_auth_request :
      {J : Type 0} ⦃t : TokenGenerator G⦄
      → Json J
      → ApiHandler F D G
      → Request
      → Result (ApiHandler F D G × Response F)
  handle_auth_request j h r =
      let say = λ (status : Status) (body : Body F). make_string_response r status body none in
      elim (parse_join_game_request j r.text) [
        | err _ ↦ ok (h, say bad_request join_game_req_parse_error)
        | ok (map_id, user_name) ↦ elim (add_player to_double h.game map_id user_name) [
          | ok (g, (token, player_id)) ↦ ok (
            record h { game = g; ticker = elim h.ticker [ none ↦ none | some _ ↦ some true ] },
            say success (auth token player_id),
          )
          | err map_not_found ↦ ok (h, say not_found map_not_found_body)
          | err empty_name ↦ ok (h, say bad_request invalid_name)
          | err e ↦ err e
        ]
      ]

  unfoldable pub handle_join_game_request :
      {J : Type 0} ⦃t : TokenGenerator G⦄
      → Json J
      → ApiHandler F D G
      → Request
      → Result (ApiHandler F D G × Response F)
  handle_join_game_request j h r = elim r.method [
    | post ↦ handle_auth_request j h r
    | head ↦ ok (h, make_string_response r method_not_allowed empty (some allow_post))
    | _ ↦
        ok (h, make_string_response r method_not_allowed only_post_method_allowed (some allow_post))
  ]
