-- ===== src/Tests/Requests.antt =====
-- The theorems on requests at concrete values.
use dog_game_cpp.Common.{ℕ, ◌≡◌, refl, ◌↔◌, pos, true, [], ◌∷◌, some, none, String, ok}
use dog_game_cpp.Float.Fixed.{Fixed, fixed_float}
use dog_game_cpp.DataTypes.{north}
use dog_game_cpp.Dog.{set_speed}
use dog_game_cpp.Session.{has_player_with_auth_token}
use dog_game_cpp.Game.Data.{Game}
use dog_game_cpp.Game.{get_player, get_session_for_token, has_session_with_auth_info}
use dog_game_cpp.Request.{
  Json, size, has_prefix_letter, remove_prefix, find_space, rest_of, strip_spaces, get_auth_token,
  is_valid_auth_token, get_direction, get_move_direction,
}
use dog_game_cpp.Request.Token.{Ends, HasSpaces, strip_spaces_iff, is_valid_auth_token_iff}
use dog_game_cpp.Api.Data.{
  Request, ApiHandler, get, post, success, unauthorized, braces, auth_header_missing,
  make_string_response,
}
use dog_game_cpp.Api.{handle_get_game_state, handle_player_action}
use dog_game_cpp.Api.Answers.{handle_get_game_state_refuses}
use dog_game_cpp.Api.Steering.{handle_player_action_steers}
use dog_game_cpp.Tests.Whole.{whole_double}
use dog_game_cpp.Tests.Values.{whole, town, anna, boris, session_of, runner}
use dog_game_cpp.Tests.Games.{game_of, same_token}

-- A space in the middle.
middle_space : Ends "a b" "ab" ↔ ((find_space "ab" ≡ none) × ((n : ℕ) × HasSpaces n "a b" "ab"))
middle_space = strip_spaces_iff "a b" "ab"

good_token_refused :
    (is_valid_auth_token "0123456789abcdef0123456789abcdef" 32 ≡ true)
    ↔ ((size "0123456789abcdef0123456789abcdef" ≡ 0) × (◌≡◌ {A = ℕ} 32 0))
good_token_refused = is_valid_auth_token_iff "0123456789abcdef0123456789abcdef" 32

-- Every field of a text is the text itself.
abbrev echo : Json String
echo = record {
  parse = λ s. ok s;
  field = λ v k. ok v;
  as_string = λ v. ok v;
  as_object = λ v. ok v;
  contains = λ v k. true;
  as_int64 = λ v. ok (pos 50);
}

abbrev handler : ApiHandler Fixed ℕ ℕ
handler = record { game = game_of (session_of (anna ∷ boris ∷ []) [] ∷ []); ticker = none }

abbrev asking : Request
asking = record {
  method = get;
  auth_type = "Bearer 0123456789abcdef0123456789abcdef";
  text = "U";
  http_version = 11;
  keep_alive = true;
  params = [];
}

stranger_refused :
    handle_get_game_state 2 handler asking
    ≡ some (ok (handler, make_string_response asking unauthorized auth_header_missing none))
unfolding get_auth_token has_prefix_letter remove_prefix strip_spaces find_space rest_of
    has_session_with_auth_info has_player_with_auth_token
stranger_refused =
    handle_get_game_state_refuses 2 handler asking "0123456789abcdef0123456789abcdef" refl refl refl

boris_turns_north :
    let r = record asking { auth_type = "Bearer bb" } in
    (g : Game Fixed ℕ ℕ) × (handle_player_action echo 2 handler (record r { method = post })
      ≡ some (
          ok (
            record handler { game = g },
            make_string_response (record r { method = post }) success braces none,
          )))
    × (get_player g "bb" ≡ ok (some (record boris { dog = set_speed runner north (whole 1) })))
    × (get_player g "aa" ≡ get_player handler.game "aa")
unfolding get_auth_token has_prefix_letter remove_prefix strip_spaces find_space rest_of
    get_session_for_token has_player_with_auth_token get_move_direction get_direction
boris_turns_north =
    handle_player_action_steers echo 2 handler (record asking { auth_type = "Bearer bb" }) "bb"
      (session_of (anna ∷ boris ∷ []) []) town boris north "aa" refl refl refl refl refl refl refl
