-- ===== src/Utils.antt =====
-- src/core/Utils.h and src/core/Utils.cpp: random numbers and the removal of elements. The
-- distributions `std::uniform_int_distribution` and `std::uniform_real_distribution` on a seeded
-- engine are the fields of `Draw`; each call in the code is given a `Draw` of its own. The
-- generator of tokens is in Tokens.
pub mod Tokens
pub mod Digits
use dog_game_cpp.Common.{◌≡◌, true, ℤ, ltb_ℤ, ◌≤ℤ◌, if◌then◌else◌}
use dog_game_cpp.Float.{Float, ◌≼◌}

pub record Draw (F : Type 0) : Type 0 where
  pub int_number : ℤ → ℤ → ℤ
  pub float_number : F → F → F

module _ {F : Type 0} ⦃f : Float F⦄ where
  unfoldable pub get_random_int_number : Draw F → ℤ → ℤ → ℤ
  get_random_int_number d min_value max_value =
      if ltb_ℤ max_value min_value
      then d.int_number max_value min_value
      else d.int_number min_value max_value

  unfoldable pub get_random_float_number : Draw F → F → F → F
  get_random_float_number d min_value max_value =
      if f.lt max_value min_value
      then d.float_number max_value min_value
      else d.float_number min_value max_value

  -- What the standard promises of the distributions: a value between the bounds.
  pub record IsUniform (d : Draw F) : Type 0 where
    pub int_bounds : (a b : ℤ) → a ≤ℤ b → (a ≤ℤ d.int_number a b) × (d.int_number a b ≤ℤ b)
    pub float_bounds : (a b : F) → a ≼ b → (a ≼ d.float_number a b) × (d.float_number a b ≼ b)
