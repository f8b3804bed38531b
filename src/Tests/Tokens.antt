-- ===== src/Tests/Tokens.antt =====
-- The theorem on the loop of tokens at concrete values.
use dog_game_cpp.Common.{
  ℕ, ◌+◌, ◌^◌, ◌≤◌, ◌<◌, ◌≡◌, ◌⊎◌, some, none, ltb, if◌then◌else◌, length, arith,
}
use dog_game_cpp.Utils.Tokens.{get_token}
use dog_game_cpp.Utils.Digits.{IsFull, token_of, get_token_lem}

-- The words of the first round are too small.
abbrev words : ℕ → ℕ
words k = if ltb k 2 then 7 else 2 ^ 63

words_fit : (k : ℕ) → words k < 2 ^ 64
words_fit k = ground arith

second_round :
    ((get_token words 3 0 ≡ none) × ((k : ℕ) → 0 ≤ k → k < 0 + 3 → ¬ IsFull words k))
    ⊎ ((k : ℕ) × (0 ≤ k)
        × (k < 0 + 3)
        × IsFull words k
        × ((m : ℕ) → 0 ≤ m → m < k → ¬ IsFull words m)
        × (length (token_of words k) ≡ 32)
        × (get_token words 3 0 ≡ some (token_of words k)))
second_round = get_token_lem words 3 0 words_fit
