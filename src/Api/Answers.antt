-- ===== src/Api/Answers.antt =====
-- What the handlers of src/network/api_handler.cpp answer.
use dog_game_cpp.Common.{
  lookup, ℕ, ◌≡◌, inl, inr, false, some, none, String, str_eq, if◌then◌else◌, arith, ok, err,
  Bool-cases, out_of_range,
}
use dog_game_cpp.Float.{Float}
use dog_game_cpp.LootGenerator.{Double}
use dog_game_cpp.Game.Data.{TokenGenerator}
use dog_game_cpp.Game.{has_session_with_auth_info}
use dog_game_cpp.Game.Joining.{add_player_refuses}
use dog_game_cpp.Request.{Json, get_auth_token, is_valid_auth_token, parse_join_game_request}
use dog_game_cpp.Request.Token.{is_valid_auth_token_iff}
use dog_game_cpp.Api.Data.{
  post, bad_request, unauthorized, Request, ApiHandler, invalid_name, auth_header_missing,
  make_string_response,
}
use dog_game_cpp.Api.{
  with_token, is_no_reading, handle_get_game_state, handle_join_game_request, handle_auth_request,
}

module _ {F D G : Type 0} where
  -- A reading request whose token no session has is always answered that the header is missing:
  -- the answer that the token is unknown is never given, whatever the token is.
  pub handle_get_game_state_refuses :
      (fuel : ℕ) (h : ApiHandler F D G) (r : Request) (token : String)
      → is_no_reading r.method ≡ false
      → get_auth_token fuel r.auth_type ≡ ok (some token)
      → has_session_with_auth_info h.game token ≡ false
      → handle_get_game_state fuel h r
        ≡ some (ok (h, make_string_response r unauthorized auth_header_missing none))
  unfolding handle_get_game_state with_token
  handle_get_game_state_refuses fuel h r token reads e unknown =
      let invalid : is_valid_auth_token token 32 ≡ false =
        ground (arith, is_valid_auth_token_iff token 32) in
      elim (Bool-cases (str_eq token "")) [
        | inl blank ↦ rw (reads, e, with_token, blank)
        | inr named ↦ rw (reads, e, with_token, named, unknown, invalid)
      ]

module _ {F D G J : Type 0} ⦃f : Float F⦄ ⦃d : Double D⦄ ⦃t : TokenGenerator G⦄
    (to_double : F → D) where
  -- A `POST` request to join an unknown map: without a name the answer is that the name is invalid; with a
  -- name no response is made, and `std::out_of_range` leaves the handler.
  pub handle_join_game_request_unknown_map :
      (j : Json J) (h : ApiHandler F D G) (r : Request) (id name : String)
      → parse_join_game_request j r.text ≡ ok (id, name)
      → lookup id h.game.storage.maps ≡ none
      → let r' = record r { method = post } in
        handle_join_game_request to_double j h r' ≡ (
          if str_eq name ""
          then ok (h, make_string_response r' bad_request invalid_name none)
          else err out_of_range)
  unfolding handle_join_game_request handle_auth_request
  handle_join_game_request_unknown_map j h r id name reads unknown =
      let refusal = add_player_refuses to_double h.game id name unknown in
      elim (Bool-cases (str_eq name "")) [
        | inl blank ↦ rw (reads, handle_join_game_request, handle_auth_request, refusal, blank)
        | inr named ↦ rw (reads, handle_join_game_request, handle_auth_request, refusal, named)
      ]
