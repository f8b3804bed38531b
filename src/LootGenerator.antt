-- ===== src/LootGenerator.antt =====
-- src/core/LootGenerator.h and src/core/LootGenerator.cpp: how many loots appear. `double` and the
-- functions of <cmath> on it are the operations of `Double`.
pub mod Bounds
use dog_game_cpp.Common.{ℕ, ◌-◌, ℤ, pos, ◌+ℤ◌, Bool, ltb, if◌then◌else◌}

pub record Double (D : Type 0) : Type 0 where
  pub nought : D
  pub one : D
  pub sub : D → D → D
  pub mul : D → D → D
  pub pow : D → D → D
  pub lt : D → D → Bool
  pub le : D → D → Bool
  pub of_unsigned : ℕ → D
  -- `static_cast<unsigned>(std::round(x))`
  pub round : D → ℕ
  -- The quotient of two times in milliseconds.
  pub quotient : ℤ → ℤ → D

pub record LootGenerator (D : Type 0) : Type 0 where
  pub base_interval : ℤ
  pub probability : D
  pub time_without_loot : ℤ

unfoldable pub shortage : ℕ → ℕ → ℕ
shortage loot_count looter_count =
    if ltb looter_count loot_count then 0 else looter_count - loot_count

module _ {D : Type 0} ⦃d : Double D⦄ where
  -- The constructor, with the default random generator.
  unfoldable pub make_loot_generator : ℤ → D → LootGenerator D
  make_loot_generator base_interval probability = record {
    base_interval = base_interval;
    probability = probability;
    time_without_loot = pos 0;
  }

  abbrev pub default_generator : D
  default_generator = d.one

  -- `std::clamp`
  unfoldable pub clamp : D → D → D → D
  clamp v lo hi = if d.lt v lo then lo else if d.lt hi v then hi else v

  -- The chance of one loot after the given time.
  unfoldable pub chance : LootGenerator D → ℤ → D
  chance g time =
      clamp
        (d.mul (d.sub d.one (d.pow (d.sub d.one g.probability) (d.quotient time g.base_interval)))
          default_generator)
        d.nought d.one

  -- The number of loots to add, and the generator afterwards.
  unfoldable pub generate : LootGenerator D → ℤ → ℕ → ℕ → ℕ × LootGenerator D
  generate g time_delta loot_count looter_count =
      let time = g.time_without_loot +ℤ time_delta in
      let generated_loot =
        d.round (d.mul (d.of_unsigned (shortage loot_count looter_count)) (chance g time)) in
      (
        generated_loot,
        record g { time_without_loot = if ltb 0 generated_loot then pos 0 else time },
      )
