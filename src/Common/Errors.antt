-- ===== src/Common/Errors.antt =====
-- Errors as values: the exceptions of src/core/Exceptions.h that the modelled code throws or
-- catches, those of the standard library, and `undefined` for behaviour that C++ leaves undefined.
use mathlib.Core.Path.{◌≡◌, refl}
use mathlib.Core.Option.{Option, none, some}
use mathlib.Core.List.{List}
use Prim.Native.Nat.{ℕ}
use dog_game_cpp.Common.Lists.{get_elem?}
use dog_game_cpp.Common.Int.{ℤ, pos, negsuc}

pub data Error : Type 0 where
  map_not_found unknown_road_orientation empty_name invalid_token player_absent : Error
  dog_speed invalid_session bad_delta_time loot_not_specified road_not_specified : Error
  out_of_range bad_json no_such_file runtime_error assertion_failed undefined : Error

pub data Result {ℓ} (A : Type ℓ) : Type ℓ where
  ok : A → Result A
  err : Error → Result A

-- What follows a step runs only after a step that returns; an exception ends the chain.
infixl 5 ◌>>=◌
abbrev pub ◌>>=◌ {ℓ μ} : {X : Type ℓ} {Y : Type μ} → Result X → (X → Result Y) → Result Y
ok x >>= next = next x
err thrown >>= next = err thrown

abbrev pub or_fail {ℓ} : {A : Type ℓ} → Option A → Error → Result A
or_fail none e = err e
or_fail (some a) e = ok a

-- `xs[i]` of a vector, which is undefined outside the bounds.
abbrev pub at {ℓ} : {A : Type ℓ} → List A → ℤ → Result A
at xs (pos i) = or_fail (get_elem? xs i) undefined
at xs (negsuc i) = err undefined

-- A chain that returns has a first step that returns.
pub >>=-eq-ok {ℓ μ} :
    {X : Type ℓ} {Y : Type μ} (step : Result X) (next : X → Result Y) {y : Y}
    → (step >>= next) ≡ ok y
    → (x : X) × (step ≡ ok x) × (next x ≡ ok y)
>>=-eq-ok (ok x) next q = (x, refl, q)
>>=-eq-ok (err thrown) next q = cc

pub at-pos {ℓ} :
    {A : Type ℓ} (xs : List A) (i : ℤ) (k : ℕ) {x : A}
    → i ≡ pos k
    → get_elem? xs k ≡ some x
    → at xs i ≡ ok x
at-pos xs i k e h = rw (e, h)

pub ok_injective {ℓ} : {A : Type ℓ} {a b : A} → ok a ≡ ok b → a ≡ b
ok_injective e = cc
