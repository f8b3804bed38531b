-- ===== src/Request/Token.antt =====
-- When `GetAuthToken` ends, and what `IsValidAuthToken` answers.
use Prim.Native.Char.{Char, code}
use dog_game_cpp.Common.{
  ℕ, zero, suc, ◌≡◌, inl, inr, ◌↔◌, true, false, some, none, String, arith, subst, sym, ◌==◌,
  Bool-cases, Option-cases,
}
use dog_game_cpp.Request.{size, find_space, rest_of, strip_spaces, all_hex, is_valid_auth_token}

-- The first text is the second with `n` spaces in front.
abbrev pub HasSpaces : ℕ → String → String → Type 0
HasSpaces zero s t = s ≡ t
HasSpaces (suc n) String.[] t = ⊥
HasSpaces (suc n) (String.◌∷◌ c s) t = (code c ≡ b' ') × HasSpaces n s t

-- The loop ends with the given text on enough fuel.
abbrev pub Ends : String → String → Type 0
Ends s t = (fuel : ℕ) × (strip_spaces fuel s ≡ some t)

ends_after_spaces :
    (n : ℕ) (s t : String) → find_space t ≡ none → HasSpaces n s t → strip_spaces (suc n) s ≡ some t
unfolding find_space rest_of strip_spaces
ends_after_spaces zero s t e h =
    subst (λ x. strip_spaces 1 x ≡ some t) (sym h) (rw (e, strip_spaces))
ends_after_spaces (suc n) String.[] t e h = absurd h
ends_after_spaces (suc n) (String.◌∷◌ c s) t e (h, k) =
    let q : (code c == b' ') ≡ true = ground (arith, h) in
    rw (strip_spaces, q) (ends_after_spaces n s t e k)

-- A text that starts with a space.
starts_with_space :
    (s : String) (n : ℕ) (t : String)
    → find_space s ≡ some 0
    → HasSpaces n (rest_of s) t
    → HasSpaces (suc n) s t
unfolding find_space rest_of
starts_with_space String.[] n t e h = cc
starts_with_space (String.◌∷◌ c s) n t e h = elim (Bool-cases (code c == b' ')) [
  | inl space ↦ (ground (arith, space), h)
  | inr other ↦ elim (Option-cases (find_space s)) [
    | inl q ↦ absurd (ground (arith, q, other, e))
    | inr (i, q) ↦ absurd (ground (arith, q, other, e))
  ]
]

-- What the loop returns has no space, and the loop has only removed spaces at the start.
strip_spaces_lem :
    (fuel : ℕ) (s t : String)
    → strip_spaces fuel s ≡ some t
    → (find_space t ≡ none) × ((n : ℕ) × HasSpaces n s t)
unfolding strip_spaces
strip_spaces_lem zero s t e = cc
strip_spaces_lem (suc fuel) s t e = elim (Option-cases (find_space s)) [
  | inl q ↦
      let same : s ≡ t = ground (arith, e, q) in
      (subst (λ x. find_space x ≡ none) same q, (0, same))
  | inr (zero, q) ↦
      let (clean, (n, h)) = strip_spaces_lem fuel (rest_of s) t (ground (arith, e, q)) in
      (clean, (suc n, starts_with_space s n t q h))
  | inr (suc i, q) ↦ strip_spaces_lem fuel s t (ground (arith, e, q))
]

-- The loop of `GetAuthToken` ends with a text exactly when that text has no space and what it
-- started from is that text with spaces in front. With a space further on it never ends.
pub strip_spaces_iff :
    (s t : String) → Ends s t ↔ ((find_space t ≡ none) × ((n : ℕ) × HasSpaces n s t))
strip_spaces_iff s t = (
  λ (fuel, e). strip_spaces_lem fuel s t e,
  λ (clean, (n, h)). (suc n, ends_after_spaces n s t clean h),
)

-- No character is both in `0-9` and in `a-f`.
all_hex-cons : (c : Char) (s : String) → all_hex (String.◌∷◌ c s) ≡ false
unfolding all_hex
all_hex-cons c s = ground arith

refused :
    (c : Char) (s : String) (valid_size : ℕ)
    → is_valid_auth_token (String.◌∷◌ c s) valid_size ≡ false
unfolding is_valid_auth_token
refused c s valid_size = ground (arith, all_hex-cons c s)

-- `IsValidAuthToken` accepts no text but the empty one: a text that has a character is refused, of
-- the expected size or not.
pub is_valid_auth_token_iff :
    (token : String) (valid_size : ℕ)
    → (is_valid_auth_token token valid_size ≡ true) ↔ ((size token ≡ 0) × (valid_size ≡ 0))
unfolding is_valid_auth_token all_hex size
is_valid_auth_token_iff String.[] valid_size = ground arith
is_valid_auth_token_iff (String.◌∷◌ c s) valid_size = ground (arith, refused c s valid_size)
