-- ===== src/Float.antt =====
-- `float`: the operations that the code uses, over any type that has them. Nothing is assumed of
-- them in the definitions; the theorems that compare values take the record `IsOrdered` of laws,
-- which hold of IEEE 754 numbers, NaN included.
pub mod Fixed
use dog_game_cpp.Common.{ℕ, ℤ, ◌≡◌, Bool, true, false, ◌&&◌, if◌then◌else◌}

pub record Float (F : Type 0) : Type 0 where
  pub add : F → F → F
  pub sub : F → F → F
  pub mul : F → F → F
  pub div : F → F → F
  pub neg : F → F
  pub abs : F → F
  pub le : F → F → Bool
  pub lt : F → F → Bool
  pub eq : F → F → Bool
  -- `static_cast<float>` of an integer, and `int` of a `float`
  pub of_int : ℤ → F
  pub truncate : F → ℤ
  -- `literal m e` is the constant m * 10^-e as the source writes it, rounded to `float`.
  pub literal : ℕ → ℕ → F

infix 4 ◌≼◌
abbrev pub ◌≼◌ : {F : Type 0} ⦃f : Float F⦄ → F → F → Type 0
◌≼◌ ⦃f⦄ x y = f.le x y ≡ true

-- `std::min` and `std::max`.
abbrev pub fmin : {F : Type 0} ⦃f : Float F⦄ → F → F → F
fmin ⦃f⦄ a b = if f.lt b a then b else a

abbrev pub fmax : {F : Type 0} ⦃f : Float F⦄ → F → F → F
fmax ⦃f⦄ a b = if f.lt a b then b else a

-- A number is a value that is not NaN.
abbrev pub IsNumber : {F : Type 0} ⦃f : Float F⦄ → F → Type 0
IsNumber x = x ≼ x

pub record IsOrdered (F : Type 0) ⦃f : Float F⦄ : Type 0 where
  pub number_of_le : (x y : F) → x ≼ y → (x ≼ x) × (y ≼ y)
  pub le_trans : (x y z : F) → x ≼ y → y ≼ z → x ≼ z
  pub le_of_lt : (x y : F) → f.lt x y ≡ true → x ≼ y
  pub le_of_not_lt : (x y : F) → x ≼ x → y ≼ y → f.lt x y ≡ false → y ≼ x
  pub not_lt_of_le : (x y : F) → x ≼ y → f.lt y x ≡ false
  pub eq-le : (x y : F) → f.eq x y ≡ (f.le x y && f.le y x)
  -- A constant is not negative: moving a number by it does not cross the number.
  pub sub-literal_le : (x : F) (m e : ℕ) → x ≼ x → f.sub x (f.literal m e) ≼ x
  pub le-add_literal : (x : F) (m e : ℕ) → x ≼ x → x ≼ f.add x (f.literal m e)
  -- Equal values whose difference is a number differ by zero.
  pub abs-sub_self_le :
      (x y : F) (m e : ℕ)
      → f.sub x y ≼ f.sub x y
      → f.eq y x ≡ true
      → f.abs (f.sub x y) ≼ f.literal m e
