-- ===== src/LootGenerator/Bounds.antt =====
-- How many loots `LootGenerator::Generate` asks for.
use Prim.Native.Nat.{max}
use dog_game_cpp.Common.{
  ℕ, ◌+◌, ◌≤◌, ◌≡◌, refl, ℤ, pos, ◌+ℤ◌, true, false, if◌then◌else◌, ltb, arith,
}
use dog_game_cpp.LootGenerator.{
  Double, LootGenerator, clamp, shortage, chance, generate, default_generator,
}

-- What the code relies on: comparisons of numbers, and the rounding of a part of a whole number.
pub record IsDouble (D : Type 0) ⦃d : Double D⦄ : Type 0 where
  pub unit_interval : d.le d.nought d.one ≡ true
  pub nought_number : d.le d.nought d.nought ≡ true
  pub one_number : d.le d.one d.one ≡ true
  pub le_of_not_lt :
      (x y : D) → d.le x x ≡ true → d.le y y ≡ true → d.lt x y ≡ false → d.le y x ≡ true
  pub round_le :
      (n : ℕ) (p : D)
      → d.le d.nought p ≡ true
      → d.le p d.one ≡ true
      → d.round (d.mul (d.of_unsigned n) p) ≤ n

module _ {D : Type 0} ⦃d : Double D⦄ where
  -- The probability that `Generate` computes, before it is clamped.
  abbrev pub raw_chance : LootGenerator D → ℤ → D
  raw_chance g time =
      d.mul (d.sub d.one (d.pow (d.sub d.one g.probability) (d.quotient time g.base_interval)))
        default_generator

  clamp_bounds :
      IsDouble D
      → (v : D) → d.le v v ≡ true
      → (d.le d.nought (clamp v d.nought d.one) ≡ true)
        × (d.le (clamp v d.nought d.one) d.one ≡ true)
  unfolding clamp
  clamp_bounds laws v n = ground (
    arith,
    laws.unit_interval,
    laws.nought_number,
    laws.one_number,
    laws.le_of_not_lt v d.nought n laws.nought_number,
    laws.le_of_not_lt d.one v laws.one_number n,
  )

  -- If the probability is a number, the loots asked for and those that lie about are together no more
  -- than the looters, or than the loots that lay about already; and the time since the last loot
  -- starts anew exactly when some loot is asked for, and else goes on.
  pub generate_bounds :
      (laws : IsDouble D) (g : LootGenerator D) (time_delta : ℤ) (loot_count looter_count : ℕ)
      → (let v = raw_chance g (g.time_without_loot +ℤ time_delta) in d.le v v ≡ true)
      → let (n, g') = generate g time_delta loot_count looter_count in
        (loot_count + n ≤ max loot_count looter_count)
        × (g'.time_without_loot ≡ (if ltb 0 n then pos 0 else g.time_without_loot +ℤ time_delta))
  unfolding generate chance shortage
  generate_bounds laws g time_delta loot_count looter_count n =
      let time = g.time_without_loot +ℤ time_delta in
      let (lo, hi) = clamp_bounds laws (raw_chance g time) n in
      let part = laws.round_le (shortage loot_count looter_count) (chance g time) lo hi in
      (ground (arith, part), refl)
