-- ===== src/Api/Steps.antt =====
-- What a request does to the game: the handlers of src/network/api_handler.cpp.
use dog_game_cpp.Common.{
  or_fail, ltb_ℤ, ℕ, ℤ, ◌≡◌, subst, not, ◌||◌, List, Option, some, none, String, Result, ok, err,
  >>=-eq-ok, ok_injective, undefined,
}
use dog_game_cpp.Float.{Float}
use dog_game_cpp.DataTypes.{PlayerRecordItem}
use dog_game_cpp.Collision.{EventSort}
use dog_game_cpp.LootGenerator.{Double}
use dog_game_cpp.Session.Looting.{LootDraw}
use dog_game_cpp.Game.Data.{Game, TokenGenerator}
use dog_game_cpp.Game.{
  get_player, find_all_players_for_auth_info, get_loots_for_auth_info, has_session_with_auth_info,
  get_session_for_token, add_player, move_dogs, generate_loot, find_map,
}
use dog_game_cpp.Request.{
  Json, get_move_direction, is_valid_auth_token, parse_join_game_request, parse_delta_time_request,
}
use dog_game_cpp.Api.Dispatch.{
  Outside, Endpoint, game, players, state, action, tick, records, find_handler, default_response,
  run_endpoint, handle_api_request,
}
use dog_game_cpp.Request.Parameters.{get_request_parameters, parse_parameters, max_db_records}
use dog_game_cpp.Api.{
  is_empty, is_no_reading, handle_get_players_request, handle_get_game_state, handle_player_action,
  act, handle_tick_action, handle_auth_request, handle_join_game_request,
}
use dog_game_cpp.Api.Data.{Request, ApiHandler}
use dog_game_cpp.Api.Records.{handle_get_records_action}
use dog_game_cpp.Api.Play.{Play, stay, join, turn, round}
use dog_game_cpp.Api.Keeps.{
  Keeps, fails, returns, KeepsAll, ends, by_if, by_if_all, by_step, by_token, by_verb, by_verb_all,
  by_option, by_result, by_error,
}

module _ {F D G : Type 0} {P : Game F D G → Type 0} where
  players-Keeps :
      (fuel : ℕ) (h : ApiHandler F D G) (r : Request)
      → P h.game
      → KeepsAll P (handle_get_players_request fuel h r)
  unfolding handle_get_players_request
  players-Keeps fuel h r p = by_if_all (is_no_reading r.method) (ends (returns p)) (
      by_token fuel r.auth_type (λ token. by_if (is_empty token) (returns p) (
        by_step (get_player h.game token) (λ player _.
          by_option player (returns p)
            (λ _. by_step (find_all_players_for_auth_info h.game token) (λ _ _. returns p))))))

  state-Keeps :
      (fuel : ℕ) (h : ApiHandler F D G) (r : Request)
      → P h.game
      → KeepsAll P (handle_get_game_state fuel h r)
  unfolding handle_get_game_state
  state-Keeps fuel h r p = by_if_all (is_no_reading r.method) (ends (returns p)) (
      by_token fuel r.auth_type (λ token.
        by_if (is_empty token || not (has_session_with_auth_info h.game token))
          (by_if (is_empty token || not (is_valid_auth_token token 32)) (returns p) (returns p))
          (by_verb r.method
            (by_step (find_all_players_for_auth_info h.game token)
              (λ _ _. by_step (get_loots_for_auth_info h.game token) (λ _ _. returns p)))
            (returns p) (returns p) (returns p))))

  records-Keeps :
      (get_retired_players : ℤ → ℤ → Result (List PlayerRecordItem)) (h : ApiHandler F D G)
      (r : Request)
      → P h.game
      → Keeps P (handle_get_records_action get_retired_players h r)
  unfolding handle_get_records_action
  records-Keeps get_retired_players h r p = by_if (is_no_reading r.method) (returns p) (
      by_if (ltb_ℤ max_db_records (parse_parameters r.params).1) (returns p) (
        by_step (get_retired_players (parse_parameters r.params).0 (parse_parameters r.params).1)
          (λ _ _. returns p)))

module _ {F D G J : Type 0} ⦃f : Float F⦄ where
  act-Play :
      ⦃d : Double D⦄ ⦃sort : EventSort F⦄ ⦃t : TokenGenerator G⦄ (to_double : F → D)
      (draws : ℕ → ℕ → LootDraw F) (j : Json J) (g : Game F D G) (token body : String)
      {g' : Game F D G}
      → act j g token body ≡ ok g'
      → Play to_double draws g g'
  unfolding act
  act-Play to_double draws j g token body e =
      let (session, _, e1) = >>=-eq-ok (or_fail (get_session_for_token g token) undefined) _ e in
      let (m, _, e2) = >>=-eq-ok (find_map g session.map_id) _ e1 in
      let (player, _, e3) = >>=-eq-ok (get_player g token) _ e2 in
      let (dir, _, e4) = >>=-eq-ok (get_move_direction j body) _ e3 in
      subst (Play to_double draws g) (ok_injective e4) (turn token dir _)

  action-Keeps :
      ⦃d : Double D⦄ ⦃sort : EventSort F⦄ ⦃t : TokenGenerator G⦄ (to_double : F → D)
      (draws : ℕ → ℕ → LootDraw F) (j : Json J) (fuel : ℕ) (h : ApiHandler F D G) (r : Request)
      → KeepsAll (Play to_double draws h.game) (handle_player_action j fuel h r)
  unfolding handle_player_action
  action-Keeps to_double draws j fuel h r =
      by_verb_all r.method (ends (returns stay)) (ends (returns stay))
        (by_token fuel r.auth_type (λ token. by_if (is_empty token) (returns stay) (
          by_if (has_session_with_auth_info h.game token)
            (by_step (act j h.game token r.text)
              (λ g e. returns (act-Play to_double draws j h.game token r.text e)))
            (returns stay))))
        (ends (returns stay))

  tick-Keeps :
      ⦃d : Double D⦄ ⦃sort : EventSort F⦄ ⦃t : TokenGenerator G⦄ (to_double : F → D) (j : Json J)
      (draws : ℕ → ℕ → LootDraw F) (h : ApiHandler F D G) (r : Request)
      → Keeps (Play to_double draws h.game) (handle_tick_action j draws h r)
  unfolding handle_tick_action
  tick-Keeps to_double j draws h r =
      by_verb r.method (returns stay) (returns stay)
        (by_option h.ticker
          (by_result (parse_delta_time_request j r.text) (λ _. returns stay)
            (λ delta _.
              by_step (generate_loot draws h.game delta)
                (λ g e. by_step (move_dogs g delta) (λ g' k. returns (round delta (rw e k))))))
          (λ _. returns stay))
        (returns stay)

module _ {F D G J : Type 0} ⦃f : Float F⦄ ⦃d : Double D⦄ ⦃sort : EventSort F⦄ ⦃t : TokenGenerator G⦄
    (to_double : F → D) (draws : ℕ → ℕ → LootDraw F) where
  auth-Keeps :
      (j : Json J) (h : ApiHandler F D G) (r : Request)
      → Keeps (Play to_double draws h.game) (handle_auth_request to_double j h r)
  unfolding handle_auth_request
  auth-Keeps j h r =
      by_result (parse_join_game_request j r.text) (λ _. returns stay)
        (λ x _.
          by_result (add_player to_double h.game x.0 x.1) (λ e. by_error e _ _ _ _ stay stay)
            (λ y k. returns (join x.0 x.1 k)))

  join-Keeps :
      (j : Json J) (h : ApiHandler F D G) (r : Request)
      → Keeps (Play to_double draws h.game) (handle_join_game_request to_double j h r)
  unfolding handle_join_game_request
  join-Keeps j h r =
      by_verb r.method (returns stay) (returns stay) (auth-Keeps j h r) (returns stay)

module _ {F D G J : Type 0} ⦃f : Float F⦄ ⦃d : Double D⦄ ⦃sort : EventSort F⦄ ⦃t : TokenGenerator G⦄
    (out : Outside F D J) where
  run_endpoint-Keeps :
      (e : Endpoint) (h : ApiHandler F D G) (r : Request)
      → KeepsAll (Play out.to_double out.draws h.game) (run_endpoint out e h r)
  unfolding run_endpoint
  run_endpoint-Keeps game h r = ends (join-Keeps out.to_double out.draws out.json h r)
  run_endpoint-Keeps players h r = players-Keeps out.fuel h r stay
  run_endpoint-Keeps state h r = state-Keeps out.fuel h r stay
  run_endpoint-Keeps action h r = action-Keeps out.to_double out.draws out.json out.fuel h r
  run_endpoint-Keeps tick h r = ends (tick-Keeps out.to_double out.json out.draws h r)
  run_endpoint-Keeps records h r = ends (records-Keeps out.get_retired_players h r stay)

  read-Keeps :
      (h : ApiHandler F D G) (r : Request) (e : Endpoint) (params : Result (List (String × String)))
      → KeepsAll (Play out.to_double out.draws h.game) (elim params [
        | err x ↦ some (err x)
        | ok found ↦ run_endpoint out e h (record r { params = get_request_parameters found })
      ])
  read-Keeps h r e (err x) = ends fails
  read-Keeps h r e (ok found) = run_endpoint-Keeps e h _

  answered-Keeps :
      (h : ApiHandler F D G) (request : String) (r : Request) (found : Option Endpoint)
      → KeepsAll (Play out.to_double out.draws h.game) (elim found [
        | none ↦ some (ok (h, default_response {F = F}))
        | some e ↦ elim (out.url_params request) [
          | err x ↦ some (err x)
          | ok params ↦ run_endpoint out e h (record r { params = get_request_parameters params })
        ]
      ])
  answered-Keeps h request r none = ends (returns stay)
  answered-Keeps h request r (some e) = read-Keeps h r e (out.url_params request)

  pub handle_api_request-Keeps :
      (h : ApiHandler F D G) (request : String) (r : Request)
      → KeepsAll (Play out.to_double out.draws h.game) (handle_api_request out h request r)
  unfolding handle_api_request
  handle_api_request-Keeps h request r = answered-Keeps h request r (find_handler request)
