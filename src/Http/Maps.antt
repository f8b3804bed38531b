-- ===== src/Http/Maps.antt =====
-- The targets of src/network/request_handler.h that are no endpoints of the API.
use Prim.Native.Char.{Char, code}
use dog_game_cpp.Common.{
  ◌≡◌, refl, sym, ◌∙◌, Bool, true, false, some, none, String, str_eq, ◌==◌, Bool-cases,
  Option-cases, eq_iff, if◌then◌else◌, arith, inl, inr,
}
use dog_game_cpp.Request.Parameters.{before_mark, get_request_string_without_parameters}
use dog_game_cpp.Api.Dispatch.{
  is_api_request, game_endpoint, players_endpoint, state_endpoint, action_endpoint, tick_endpoint,
  records_endpoint,
}
use dog_game_cpp.Http.{api_prefix, after_prefix, map_prefix, starts_with}

no_mark : String → Bool
no_mark String.[] = true
no_mark (String.◌∷◌ c s) = let rest = no_mark s in if code c == b'?' then false else rest

no_mark_parts :
    (c : Char) (s : String)
    → no_mark (String.◌∷◌ c s) ≡ true
    → ((code c == b'?') ≡ false) × (no_mark s ≡ true)
unfolding no_mark
no_mark_parts c s h = elim (Bool-cases (code c == b'?')) [
  | inl y ↦ cc
  | inr n ↦ (n, sym (rw n refl) ∙ h)
]

without_cons :
    (c : Char) (s : String)
    → (code c == b'?') ≡ false
    → get_request_string_without_parameters (String.◌∷◌ c s)
      ≡ String.◌∷◌ c (get_request_string_without_parameters s)
unfolding get_request_string_without_parameters before_mark
without_cons c s h = elim (Option-cases (before_mark s)) [
  | inl n ↦ rw (get_request_string_without_parameters, n, h) refl
  | inr (t, e) ↦ rw (get_request_string_without_parameters, e) refl
]

-- A prefix without a question mark stands before the last one.
before_mark-after_prefix :
    (p s : String) {rest : String}
    → no_mark p ≡ true
    → after_prefix p s ≡ some rest
    → (t : String) × (after_prefix p (get_request_string_without_parameters s) ≡ some t)
unfolding after_prefix
before_mark-after_prefix String.[] s h e = (_, refl)
before_mark-after_prefix (String.◌∷◌ c p) String.[] h e = cc
before_mark-after_prefix (String.◌∷◌ c p) (String.◌∷◌ d s) h e =
    elim (Bool-cases (code c == code d)) [
      | inl y ↦
          let (clear, more) = no_mark_parts c p h in
          let (t, q) = before_mark-after_prefix p s more (sym (rw y refl) ∙ e) in
          let same : (code d == b'?') ≡ false = ground (arith, y, clear) in
          (t, rw (without_cons d s same, y) q)
      | inr n ↦ cc
    ]

not_listed :
    (endpoint s : String) {rest : String}
    → after_prefix map_prefix endpoint ≡ none
    → after_prefix map_prefix s ≡ some rest
    → str_eq endpoint s ≡ false
not_listed endpoint s n e = elim (Bool-cases (str_eq endpoint s)) [
  | inl y ↦ let same = (eq_iff endpoint s).0 y in cc
  | inr q ↦ q
]

-- A target of maps is none of the API.
pub is_api_request-map :
    (target : String) {rest : String}
    → after_prefix map_prefix target ≡ some rest
    → is_api_request target ≡ false
unfolding is_api_request no_mark after_prefix
is_api_request-map target e =
    let (t, q) = before_mark-after_prefix map_prefix target refl e in
    rw
      (
        not_listed game_endpoint _ refl q,
        not_listed players_endpoint _ refl q,
        not_listed state_endpoint _ refl q,
        not_listed action_endpoint _ refl q,
        not_listed tick_endpoint _ refl q,
        not_listed records_endpoint _ refl q,
      )
      refl

-- A text that starts with a longer prefix starts with the shorter one.
shorter_prefix :
    (p m s : String) {q r : String}
    → after_prefix p m ≡ some q
    → after_prefix m s ≡ some r
    → (t : String) × (after_prefix p s ≡ some t)
unfolding after_prefix
shorter_prefix String.[] m s e g = (s, refl)
shorter_prefix (String.◌∷◌ c p) String.[] s e g = cc
shorter_prefix (String.◌∷◌ c p) (String.◌∷◌ d m) String.[] e g = cc
shorter_prefix (String.◌∷◌ c p) (String.◌∷◌ d m) (String.◌∷◌ b s) e g =
    elim (Bool-cases (code c == code d)) [
      | inr n ↦ cc
      | inl y ↦ elim (Bool-cases (code d == code b)) [
        | inr n ↦ cc
        | inl z ↦
            let (t, k) = shorter_prefix p m s (sym (rw y refl) ∙ e) (sym (rw z refl) ∙ g) in
            let same : (code c == code b) ≡ true = ground (arith, y, z) in (t, rw same k)
      ]
    ]

-- So a target that does not start with `/api/` is none of the maps.
pub no_map_target :
    (target : String)
    → starts_with api_prefix target ≡ false
    → after_prefix map_prefix target ≡ none
unfolding after_prefix starts_with
no_map_target target h = elim (Option-cases (after_prefix map_prefix target)) [
  | inl n ↦ n
  | inr (r, e) ↦ let (t, k) = shorter_prefix api_prefix map_prefix target refl e in cc
]
