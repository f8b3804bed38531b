-- ===== src/Api/Keeps.antt =====
-- What it is that a handler of src/network/api_handler.cpp leaves a game of some kind, and how that
-- follows from its parts.
use dog_game_cpp.Common.{
  ℕ, ◌≡◌, refl, Bool, true, false, Option, some, none, String, if◌then◌else◌, Result, ok, err,
  ◌>>=◌, Error, map_not_found, empty_name, unknown_road_orientation, invalid_token, player_absent,
  dog_speed, invalid_session, bad_delta_time, loot_not_specified, road_not_specified, out_of_range,
  bad_json, no_such_file, runtime_error, assertion_failed, undefined,
}
use dog_game_cpp.Game.Data.{Game}
use dog_game_cpp.Request.{get_auth_token}
use dog_game_cpp.Api.{with_token}
use dog_game_cpp.Api.Data.{ApiHandler, Verb, get, head, post, other}

-- Where a handler returns, its game satisfies `P`.
pub data Keeps {F D G R : Type 0} (P : Game F D G → Type 0)
    : Result (ApiHandler F D G × R) → Type 0 where
  fails : {e : Error} → Keeps P (err e)
  returns : {h : ApiHandler F D G} {x : R} → P h.game → Keeps P (ok (h, x))

pub data KeepsAll {F D G R : Type 0} (P : Game F D G → Type 0)
    : Option (Result (ApiHandler F D G × R)) → Type 0 where
  runs_on : KeepsAll P none
  ends : {result : Result (ApiHandler F D G × R)} → Keeps P result → KeepsAll P (some result)

module _ {F D G R : Type 0} {P : Game F D G → Type 0} where
  pub by_if :
      (b : Bool) {x y : Result (ApiHandler F D G × R)}
      → Keeps P x
      → Keeps P y
      → Keeps P (if b then x else y)
  by_if true p q = p
  by_if false p q = q

  pub by_if_all :
      (b : Bool) {x y : Option (Result (ApiHandler F D G × R))}
      → KeepsAll P x
      → KeepsAll P y
      → KeepsAll P (if b then x else y)
  by_if_all true p q = p
  by_if_all false p q = q

  pub by_step :
      {X : Type 0} (step : Result X) {next : X → Result (ApiHandler F D G × R)}
      → ((x : X) → step ≡ ok x → Keeps P (next x))
      → Keeps P (step >>= next)
  by_step (ok x) p = p x refl
  by_step (err e) p = fails

  token_read :
      (found : Result (Option String)) {next : String → Result (ApiHandler F D G × R)}
      → ((token : String) → Keeps P (next token))
      → KeepsAll P (elim found [
        | err e ↦ some (err e)
        | ok none ↦ none
        | ok (some token) ↦ some (next token)
      ])
  token_read (err e) p = ends fails
  token_read (ok none) p = runs_on
  token_read (ok (some token)) p = ends (p token)

  pub by_token :
      (fuel : ℕ) (auth_type : String) {next : String → Result (ApiHandler F D G × R)}
      → ((token : String) → Keeps P (next token))
      → KeepsAll P (with_token fuel auth_type next)
  unfolding with_token
  by_token fuel auth_type p = token_read (get_auth_token fuel auth_type) p

  pub by_verb :
      (v : Verb) {a b c d : Result (ApiHandler F D G × R)}
      → Keeps P a
      → Keeps P b
      → Keeps P c
      → Keeps P d
      → Keeps P (elim v [ get ↦ a | head ↦ b | post ↦ c | other ↦ d ])
  by_verb get a b c d = a
  by_verb head a b c d = b
  by_verb post a b c d = c
  by_verb other a b c d = d

  pub by_verb_all :
      (v : Verb) {a b c d : Option (Result (ApiHandler F D G × R))}
      → KeepsAll P a
      → KeepsAll P b
      → KeepsAll P c
      → KeepsAll P d
      → KeepsAll P (elim v [ get ↦ a | head ↦ b | post ↦ c | other ↦ d ])
  by_verb_all get a b c d = a
  by_verb_all head a b c d = b
  by_verb_all post a b c d = c
  by_verb_all other a b c d = d

  pub by_option :
      {X : Type 0} (o : Option X) {a : Result (ApiHandler F D G × R)}
      {b : X → Result (ApiHandler F D G × R)}
      → Keeps P a
      → ((x : X) → Keeps P (b x))
      → Keeps P (elim o [ none ↦ a | some x ↦ b x ])
  by_option none a b = a
  by_option (some x) a b = b x

  pub by_result :
      {X : Type 0} (o : Result X) {a : Error → Result (ApiHandler F D G × R)}
      {b : X → Result (ApiHandler F D G × R)}
      → ((e : Error) → Keeps P (a e))
      → ((x : X) → o ≡ ok x → Keeps P (b x))
      → Keeps P (elim o [ err e ↦ a e | ok x ↦ b x ])
  by_result (err e) a b = a e
  by_result (ok x) a b = b x refl

  pub by_error :
      (thrown : Error) (h h' : ApiHandler F D G) (x y : R)
      → P h.game
      → P h'.game
      → Keeps P (elim thrown [ map_not_found ↦ ok (h, x) | empty_name ↦ ok (h', y) | e ↦ err e ])
  by_error map_not_found h h' x y a b = returns a
  by_error unknown_road_orientation h h' x y a b = fails
  by_error empty_name h h' x y a b = returns b
  by_error invalid_token h h' x y a b = fails
  by_error player_absent h h' x y a b = fails
  by_error dog_speed h h' x y a b = fails
  by_error invalid_session h h' x y a b = fails
  by_error bad_delta_time h h' x y a b = fails
  by_error loot_not_specified h h' x y a b = fails
  by_error road_not_specified h h' x y a b = fails
  by_error out_of_range h h' x y a b = fails
  by_error bad_json h h' x y a b = fails
  by_error no_such_file h h' x y a b = fails
  by_error runtime_error h h' x y a b = fails
  by_error assertion_failed h h' x y a b = fails
  by_error undefined h h' x y a b = fails
