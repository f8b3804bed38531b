-- ===== src/Tests/Whole.antt =====
-- Whole numbers as `double`, and draws that give the lower bound: parameters on which the models run.
use Prim.Native.Nat.{◌/◌}
use dog_game_cpp.Common.{
  ℕ, ◌-◌, ◌*◌, ◌≤◌, ◌≡◌, refl, true, arith, leb, ltb, if◌then◌else◌, ◌==◌, pos_part, zero, suc,
}
use dog_game_cpp.Float.Fixed.{Fixed, fixed_float, Fixed-IsOrdered}
use dog_game_cpp.LootGenerator.{Double}
use dog_game_cpp.LootGenerator.Bounds.{IsDouble}
use dog_game_cpp.Utils.{Draw, IsUniform}

instance abbrev pub whole_double : Double ℕ
whole_double = record {
  nought = 0;
  one = 1;
  sub = λ a b. a - b;
  mul = λ a b. a * b;
  pow = λ a b. if b == 0 then 1 else a;
  lt = ltb;
  le = leb;
  of_unsigned = λ n. n;
  round = λ x. x;
  quotient = λ a b. pos_part a / pos_part b;
}

part_le : (n p : ℕ) → leb p 1 ≡ true → n * p ≤ n
part_le n zero h = omega arith
part_le n (suc zero) h = omega arith
part_le n (suc (suc p)) h = ground (arith, h)

pub whole_IsDouble : IsDouble ℕ
whole_IsDouble = record {
  unit_interval = refl;
  nought_number = refl;
  one_number = refl;
  le_of_not_lt = λ x y nx ny h. ground (arith, h);
  round_le = λ n p h k. part_le n p k;
}

abbrev pub lowest : Draw Fixed
lowest = record { int_number = λ a b. a; float_number = λ a b. a }

pub lowest-IsUniform : IsUniform lowest
lowest-IsUniform = record {
  int_bounds = λ a b h. (omega arith, h);
  float_bounds = λ a b h. (((Fixed-IsOrdered).number_of_le a b h).0, h);
}
