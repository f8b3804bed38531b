-- ===== src/Common/Keyed.antt =====
-- `std::map` from texts: pairs in the order of their keys, which is that of the bytes of the texts.
use Prim.Native.Char.{code}
use Prim.Native.String.{String}
use mathlib.Core.Path.{◌≡◌, refl}
use mathlib.Core.Logic.{inl, inr}
use mathlib.Core.Bool.{Bool, true, false}
use mathlib.Core.List.{List, [], ◌∷◌}
use mathlib.Core.Option.{Option, none, some}
use text.Mathlib.Text.{◌==◌ as str_eq}
use text.Mathlib.TextEquality.{eq_iff}
use text.Mathlib.TextPositions.{eq_refl}
use dog_game_cpp.Common.Tests.{if◌then◌else◌, ltb, ◌==◌, Bool-cases}

unfoldable pub text_lt : String → String → Bool
text_lt String.[] String.[] = false
text_lt String.[] (String.◌∷◌ d t) = true
text_lt (String.◌∷◌ c s) String.[] = false
text_lt (String.◌∷◌ c s) (String.◌∷◌ d t) =
    let rest = text_lt s t in if code c == code d then rest else ltb (code c) (code d)

pub other_key : (i k j : String) → str_eq i k ≡ true → str_eq k j ≡ false → str_eq i j ≡ false
other_key i k j e h = rw ((eq_iff i k).0 e) h

module _ {ℓ} {V : Type ℓ} where
  abbrev pub lookup : String → List (String × V) → Option V
  lookup k [] = none
  lookup k ((j, v) ∷ m) = if str_eq j k then some v else lookup k m

  -- `m[key] = value`
  unfoldable pub put : String → V → List (String × V) → List (String × V)
  put key value [] = (key, value) ∷ []
  put key value ((k, v) ∷ m) =
      let rest = put key value m in
      if str_eq k key
      then (k, value) ∷ m
      else if text_lt key k
      then (key, value) ∷ (k, v) ∷ m
      else (k, v) ∷ rest

  unfoldable pub put_all : List (String × V) → List (String × V) → List (String × V)
  put_all m [] = m
  put_all m ((key, value) ∷ more) = put_all (put key value m) more

  pub lookup-put : (k : String) (v : V) (m : List (String × V)) → lookup k (put k v m) ≡ some v
  unfolding put
  lookup-put k v [] = rw (eq_refl k) refl
  lookup-put k v ((j, w) ∷ m) = elim (Bool-cases (str_eq j k)) [
    | inl y ↦ rw (y, y) refl
    | inr n ↦ elim (Bool-cases (text_lt k j)) [
      | inl l ↦ rw (n, l, eq_refl k) refl
      | inr l ↦ rw (n, l, n) (lookup-put k v m)
    ]
  ]

  pub lookup-put_other :
      (k j : String) (v : V) (m : List (String × V))
      → str_eq k j ≡ false
      → lookup j (put k v m) ≡ lookup j m
  unfolding put
  lookup-put_other k j v [] h = rw h refl
  lookup-put_other k j v ((i, w) ∷ m) h = elim (Bool-cases (str_eq i k)) [
    | inl y ↦ rw (y, other_key i k j y h) refl
    | inr n ↦ elim (Bool-cases (text_lt k i)) [
      | inl l ↦ rw (n, l, h) refl
      | inr l ↦ elim (Bool-cases (str_eq i j)) [
        | inl q ↦ rw (n, l, q) refl
        | inr q ↦ rw (n, l, q) (lookup-put_other k j v m h)
      ]
    ]
  ]
