-- ===== src/Common/Int.antt =====
-- Signed integers over the native numbers, and the `int` of the program: 32 bits, two's complement.
use Prim.Native.Nat.{ℕ, suc, ◌+◌, ◌-◌, ◌*◌, ◌%◌, ◌^◌, ◌≤◌, ◌<◌}
use mathlib.Core.Path.{◌≡◌}
use mathlib.Core.Logic.{◌↔◌}
use mathlib.Core.Bool.{Bool, true, ◌&&◌}
use native.Mathlib.Omega.{arith}
use dog_game_cpp.Common.Tests.{leb, ltb, ◌==◌, if◌then◌else◌}

-- `negsuc n` is -(n + 1).
pub data ℤ : Type 0 where
  pos : ℕ → ℤ
  negsuc : ℕ → ℤ

abbrev pub pos_part : ℤ → ℕ
pos_part (pos n) = n
pos_part (negsuc n) = 0

abbrev pub neg_part : ℤ → ℕ
neg_part (pos n) = 0
neg_part (negsuc n) = suc n

-- a - b, as an integer.
abbrev pub sub_ℕ : ℕ → ℕ → ℤ
sub_ℕ a b = if leb b a then pos (a - b) else negsuc (b - a - 1)

infixl 65 ◌+ℤ◌ ◌-ℤ◌
infixl 70 ◌*ℤ◌
infix 50 ◌≤ℤ◌
unfoldable pub ◌+ℤ◌ : ℤ → ℤ → ℤ
a +ℤ b = sub_ℕ (pos_part a + pos_part b) (neg_part a + neg_part b)

unfoldable pub ◌-ℤ◌ : ℤ → ℤ → ℤ
a -ℤ b = sub_ℕ (pos_part a + neg_part b) (neg_part a + pos_part b)

unfoldable pub ◌*ℤ◌ : ℤ → ℤ → ℤ
a *ℤ b =
    sub_ℕ (pos_part a * pos_part b + neg_part a * neg_part b)
      (pos_part a * neg_part b + neg_part a * pos_part b)

abbrev pub ◌≤ℤ◌ : ℤ → ℤ → Type 0
a ≤ℤ b = pos_part a + neg_part b ≤ pos_part b + neg_part a

abbrev pub leb_ℤ : ℤ → ℤ → Bool
leb_ℤ a b = leb (pos_part a + neg_part b) (pos_part b + neg_part a)

abbrev pub ltb_ℤ : ℤ → ℤ → Bool
ltb_ℤ a b = ltb (pos_part a + neg_part b) (pos_part b + neg_part a)

abbrev pub eqb_ℤ : ℤ → ℤ → Bool
eqb_ℤ a b = (pos_part a == pos_part b) && (neg_part a == neg_part b)

pub eqb_ℤ_iff : (a b : ℤ) → (eqb_ℤ a b ≡ true) ↔ (a ≡ b)
eqb_ℤ_iff a b = ground arith

pub +ℤ_parts :
    (a b : ℤ)
    → pos_part (a +ℤ b) + neg_part a + neg_part b ≡ neg_part (a +ℤ b) + pos_part a + pos_part b
unfolding ◌+ℤ◌
+ℤ_parts a b = ground arith

pub eq_of_parts : (a b : ℤ) → pos_part a + neg_part b ≡ pos_part b + neg_part a → a ≡ b
eq_of_parts a b h = ground arith

pub ruleset int_laws = (arith, +ℤ_parts, eq_of_parts)

pub +ℤ_assoc : (a b c : ℤ) → a +ℤ b +ℤ c ≡ a +ℤ (b +ℤ c)
+ℤ_assoc a b c = omega int_laws

abbrev pub int_modulus : ℕ
int_modulus = 2 ^ 32

abbrev pub int_half : ℕ
int_half = 2 ^ 31

-- The bit pattern of an integer, as an `unsigned`.
abbrev pub residue : ℤ → ℕ
residue (pos n) = n % int_modulus
residue (negsuc n) = int_modulus - 1 - n % int_modulus

abbrev signed : ℕ → ℤ
signed r = if ltb r int_half then pos r else negsuc (int_modulus - 1 - r)

-- Conversion of any integer to `int`: modulo 2^32.
unfoldable pub to_int : ℤ → ℤ
to_int x = signed (residue x)

-- `a + b` on `int`, with the wrap-around of two's complement.
unfoldable pub int_add : ℤ → ℤ → ℤ
int_add a b = to_int (a +ℤ b)

abbrev pub Fits : ℤ → Type 0
Fits x = (pos_part x < int_half) × (neg_part x ≤ int_half)

pub to_int-of-Fits : (x : ℤ) → Fits x → to_int x ≡ x
unfolding to_int
to_int-of-Fits x h = ground arith

pub to_int-Fits : (x : ℤ) → Fits (to_int x)
unfolding to_int
to_int-Fits x = ground arith

-- Wrapping early does not change a wrapped sum.
pub to_int-add : (a b : ℤ) → to_int (to_int a +ℤ b) ≡ to_int (a +ℤ b)
unfolding to_int ◌+ℤ◌
to_int-add (pos a) (pos b) = ground arith
to_int-add (pos a) (negsuc b) = ground arith
to_int-add (negsuc a) (pos b) = ground arith
to_int-add (negsuc a) (negsuc b) = ground arith
