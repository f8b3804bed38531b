-- ===== src/Float/Fixed.antt =====
-- Numbers with four decimals, and `none` for NaN: a concrete type with the operations of `Float`, on
-- which the models run, and which meets the laws of `IsOrdered`.
use Prim.Native.Nat.{◌/◌}
use dog_game_cpp.Common.{
  ℕ, ◌+◌, ◌-◌, ◌*◌, ◌^◌, ℤ, pos, negsuc, pos_part, neg_part, sub_ℕ, ◌+ℤ◌, ◌-ℤ◌, ◌*ℤ◌, leb_ℤ, ltb_ℤ,
  eqb_ℤ, Bool, false, Option, none, some, if◌then◌else◌, arith, ltb, ◌==◌,
}
use dog_game_cpp.Float.{Float, IsOrdered}

abbrev pub Fixed : Type 0
Fixed = Option ℤ

abbrev unit : ℕ
unit = 10 ^ 4

abbrev binary : (ℤ → ℤ → ℤ) → Fixed → Fixed → Fixed
binary g (some a) (some b) = some (g a b)
binary g _ _ = none

abbrev test : (ℤ → ℤ → Bool) → Fixed → Fixed → Bool
test g (some a) (some b) = g a b
test g _ _ = false

-- Towards zero.
abbrev over : ℤ → ℕ → ℤ
over a n = sub_ℕ (pos_part a / n) (neg_part a / n)

abbrev magnitude : ℤ → ℕ
magnitude a = pos_part a + neg_part a

abbrev multiply : ℤ → ℤ → ℤ
multiply a b = over (a *ℤ b) unit

abbrev divide : Fixed → Fixed → Fixed
divide (some a) (some b) =
    if magnitude b == 0
    then none
    else some (
        if ltb 0 (neg_part b)
        then over (a *ℤ negsuc (unit - 1)) (magnitude b)
        else over (a *ℤ pos unit) (magnitude b))
divide _ _ = none

abbrev on_number : (ℤ → ℤ) → Fixed → Fixed
on_number g (some a) = some (g a)
on_number g none = none

abbrev whole : Fixed → ℤ
whole (some a) = over a unit
whole none = pos 0

instance abbrev pub fixed_float : Float Fixed
fixed_float = record {
  add = binary ◌+ℤ◌;
  sub = binary ◌-ℤ◌;
  mul = binary multiply;
  div = divide;
  neg = on_number (λ a. pos 0 -ℤ a);
  abs = on_number (λ a. pos (magnitude a));
  le = test leb_ℤ;
  lt = test ltb_ℤ;
  eq = test eqb_ℤ;
  of_int = λ n. some (n *ℤ pos unit);
  truncate = whole;
  literal = λ m e. some (pos (m * unit / 10 ^ e));
}

pub Fixed-IsOrdered : IsOrdered Fixed
unfolding ◌+ℤ◌ ◌-ℤ◌
Fixed-IsOrdered = ground arith
