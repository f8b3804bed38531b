-- ===== src/Api/Steering.antt =====
-- `HandlePlayerAction` of src/network/api_handler.cpp: whose dog it steers.
use dog_game_cpp.Common.{
  lookup, ℕ, ◌≡◌, refl, inl, inr, Bool, true, false, List, [], ◌∷◌, Option, some, none, String,
  str_eq, eq_iff, if◌then◌else◌, arith, Result, ok, ◌>>=◌, find_if, any_of, Bool-cases,
}
use dog_game_cpp.Float.{Float}
use dog_game_cpp.DataTypes.{DogDirection}
use dog_game_cpp.MapModel.{GameMap}
use dog_game_cpp.Dog.{set_speed}
use dog_game_cpp.Session.Data.{Player, GameSession, has_token as has_player_token}
use dog_game_cpp.Session.{has_player_with_auth_token, get_player_with_auth_token}
use dog_game_cpp.Session.Players.{any_of-find_if}
use dog_game_cpp.Game.Data.{Game}
use dog_game_cpp.Game.{has_token, get_session_for_token, get_player, has_session_with_auth_info}
use dog_game_cpp.Request.{Json, get_auth_token, get_move_direction}
use dog_game_cpp.Api.Data.{post, success, braces, Request, ApiHandler, make_string_response}
use dog_game_cpp.Api.{with_token, update_first, steer, act, handle_player_action}

module _ {ℓ} {A : Type ℓ} (p : A → Bool) (change : A → A) where
  find_if-update_first :
      (xs : List A) {x : A}
      → p (change x) ≡ true
      → find_if p xs ≡ some x
      → find_if p (update_first p change xs) ≡ some (change x)
  unfolding update_first
  find_if-update_first [] k e = cc
  find_if-update_first (y ∷ xs) {x} k e = elim (Bool-cases (p y)) [
    | inl hit ↦ let same : y ≡ x = ground (arith, e, hit) in rw (hit, same, k)
    | inr miss ↦ rw (miss, miss) (find_if-update_first xs k (ground (arith, e, miss)))
  ]

  -- Another test that the change does not touch.
  module _ (q : A → Bool) (kept : (x : A) → q (change x) ≡ q x) where
    any_of-update_first : (xs : List A) → any_of q (update_first p change xs) ≡ any_of q xs
    unfolding update_first
    any_of-update_first [] = refl
    any_of-update_first (y ∷ xs) = ground (arith, kept y, any_of-update_first xs)

    find_if-update_first_other :
        ((x : A) → p x ≡ true → q x ≡ false)
        → (xs : List A) → find_if q (update_first p change xs) ≡ find_if q xs
    unfolding update_first
    find_if-update_first_other apart [] = refl
    find_if-update_first_other apart (y ∷ xs) =
        ground (arith, kept y, apart y, find_if-update_first_other apart xs)

find_if-holds {ℓ} :
    {A : Type ℓ} (p : A → Bool) (xs : List A) {x : A} → find_if p xs ≡ some x → p x ≡ true
find_if-holds p [] e = cc
find_if-holds p (y ∷ xs) {x} e = ground (arith, e, find_if-holds p xs {x = x})

apart :
    {F : Type 0} (token another : String)
    → str_eq token another ≡ false
    → (x : Player F) → has_player_token token x ≡ true
    → has_player_token another x ≡ false
apart token another e x h =
    ground (arith, e, h, eq_iff token another, eq_iff x.token token, eq_iff x.token another)

-- The player that a token finds in a list of sessions.
abbrev seek : {F D : Type 0} → String → List (GameSession F D) → Result (Option (Player F))
seek token sessions = elim (find_if (has_token token) sessions) [
  | none ↦ ok none
  | some session ↦ get_player_with_auth_token session token >>= λ p. ok (some p)
]

module _ {F : Type 0} ⦃f : Float F⦄ where
  abbrev turn : DogDirection → F → Player F → Player F
  turn dir speed p = record p { dog = set_speed p.dog dir speed }

  abbrev turn_in : {D : Type 0} → String → DogDirection → F → GameSession F D → GameSession F D
  turn_in token dir speed s = record s {
    players = update_first (has_player_token token) (turn dir speed) s.players;
  }

module _ {F D : Type 0} ⦃f : Float F⦄ (token : String) (dir : DogDirection) (speed : F) where
  seek-turn_in :
      (ss : List (GameSession F D)) (s : GameSession F D) (p : Player F)
      → find_if (has_token token) ss ≡ some s
      → find_if (has_player_token token) s.players ≡ some p
      → seek token (update_first (has_token token) (turn_in token dir speed) ss)
        ≡ ok (some (turn dir speed p))
  unfolding has_player_with_auth_token get_player_with_auth_token
  seek-turn_in ss s p e h =
      let found =
        find_if-update_first (has_player_token token) (turn dir speed) s.players {x = p}
          (find_if-holds (has_player_token token) s.players h) h in
      let inside =
        any_of-find_if (has_player_token token) (turn_in token dir speed s).players found in
      let outer =
        find_if-update_first (has_token token) (turn_in token dir speed) ss {x = s} inside e in
      rw (outer, seek, found)

  -- A session has another token after the change exactly if it had it before.
  turn_in_keeps :
      (another : String) (s : GameSession F D)
      → has_token another (turn_in token dir speed s) ≡ has_token another s
  unfolding has_player_with_auth_token
  turn_in_keeps another s =
      any_of-update_first (has_player_token token) (turn dir speed) (has_player_token another)
        (λ x. refl) s.players

  seek-turn_in_other :
      (another : String)
      → str_eq token another ≡ false
      → (ss : List (GameSession F D))
      → seek another (update_first (has_token token) (turn_in token dir speed) ss) ≡ seek another ss
  unfolding update_first get_player_with_auth_token
  seek-turn_in_other another e [] = refl
  seek-turn_in_other another e (s ∷ ss) =
      let same =
        find_if-update_first_other (has_player_token token) (turn dir speed)
          (has_player_token another) (λ x. refl) (apart token another e) s.players in
      let kept = turn_in_keeps another s in
      let rest = seek-turn_in_other another e ss in
      elim (Bool-cases (has_token token s)) [
        | inl hit ↦ elim (Bool-cases (has_token another s)) [
          | inl here ↦ rw (hit, seek, kept, here, same)
          | inr away ↦ rw (hit, seek, kept, away)
        ]
        | inr miss ↦ elim (Bool-cases (has_token another s)) [
          | inl here ↦ rw (miss, seek, here)
          | inr away ↦ rw (miss, seek, away) rest
        ]
      ]

module _ {F D G J : Type 0} ⦃f : Float F⦄ (j : Json J) where
  -- The answer to a `POST` whose token finds a player on a known map, with a direction that is read:
  -- the dog of that player gets the direction and the speed of its map, or the default speed if that
  -- is not positive, and every other token finds the player that it found before.
  pub handle_player_action_steers :
      (fuel : ℕ) (h : ApiHandler F D G) (r : Request) (token : String) (s : GameSession F D)
      (m : GameMap F) (p : Player F) (dir : DogDirection) (another : String)
      → get_auth_token fuel r.auth_type ≡ ok (some token)
      → str_eq token "" ≡ false
      → get_session_for_token h.game token ≡ some s
      → lookup s.map_id h.game.storage.maps ≡ some m
      → find_if (has_player_token token) s.players ≡ some p
      → get_move_direction j r.text ≡ ok dir
      → str_eq token another ≡ false
      → let speed =
          if f.lt (f.literal 0 0) m.dog_speed
          then m.dog_speed
          else h.game.storage.default_dog_speed in
        (g : Game F D G) × (handle_player_action j fuel h (record r { method = post })
          ≡ some (
              ok (
                record h { game = g },
                make_string_response (record r { method = post }) success braces none,
              )))
        × (get_player g token ≡ ok (some (record p { dog = set_speed p.dog dir speed })))
        × (get_player g another ≡ get_player h.game another)
  unfolding handle_player_action with_token act steer get_player get_player_with_auth_token
      get_session_for_token has_session_with_auth_info
  handle_player_action_steers fuel h r token s m p dir another t named e known found reads
        other_token =
      let speed =
        if f.lt (f.literal 0 0) m.dog_speed
        then m.dog_speed
        else h.game.storage.default_dog_speed in
      let there = any_of-find_if (has_token token) h.game.sessions e in
      let got : get_player h.game token ≡ ok (some p) = rw (e, get_player, found) in
      (
        steer h.game token dir speed,
        rw (t, with_token, named, there) (rw (e, known, got, reads)),
        seek-turn_in token dir speed h.game.sessions s p e found,
        seek-turn_in_other token dir speed another other_token h.game.sessions,
      )
