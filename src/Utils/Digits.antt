-- ===== src/Utils/Digits.antt =====
-- The tokens of src/core/Utils.h: how long they are, and when the loop ends.
use Prim.Native.Nat.{◌/◌}
use dog_game_cpp.Common.{
  ℕ, zero, suc, ◌+◌, ◌*◌, ◌%◌, ◌^◌, ◌≤◌, ◌<◌, ◌≡◌, refl, List, [], ◌∷◌, ◌++◌, some, none, true,
  false, ltb, lt→ltb, ltb→lt, ◌⊎◌, ◌==◌, length, length-append, arith, Bool-cases, subst, ==_iff,
  inl, inr,
}
use dog_game_cpp.Utils.Tokens.{hex_digits, hex_converter, get_token}

sixteen_times : (k : ℕ) → 16 ^ suc k ≡ 16 * 16 ^ k
sixteen_times k = omega arith

pow_pos : (k : ℕ) → 0 < 16 ^ k
pow_pos zero = omega arith
pow_pos (suc k) = omega (arith, pow_pos k, sixteen_times k)

ge_ltb : (a b : ℕ) → b ≤ a → ltb a b ≡ false
ge_ltb a b h = ground arith

-- A number with k + 1 hexadecimal digits.
length-hex_digits :
    (k fuel n : ℕ) (acc : List ℕ)
    → k ≤ fuel
    → 16 ^ k ≤ n
    → n < 16 ^ suc k
    → length (hex_digits (suc fuel) n acc) ≡ suc k + length acc
unfolding hex_digits
length-hex_digits zero fuel n acc f l h =
    let small : ltb n 16 ≡ true = lt→ltb n 16 (omega (arith, h)) in rw small (omega arith)
length-hex_digits (suc k) zero n acc f l h = absurd (omega (arith, f))
length-hex_digits (suc k) (suc fuel) n acc f l h =
    let big : ltb n 16 ≡ false = ge_ltb n 16 (omega (arith, l, sixteen_times k, pow_pos k)) in
    let next =
      length-hex_digits k fuel (n / 16) (n % 16 ∷ acc) (omega (arith, f))
        (omega (arith, l, sixteen_times k)) (omega (arith, h, sixteen_times (suc k))) in
    rw big (omega (arith, next))

-- A number below 16^k has at most k digits.
length-hex_digits_le :
    (k fuel n : ℕ) (acc : List ℕ)
    → n < 16 ^ k
    → 0 < k
    → length (hex_digits fuel n acc) ≤ k + length acc
unfolding hex_digits
length-hex_digits_le k zero n acc h p = omega arith
length-hex_digits_le zero (suc fuel) n acc h p = absurd (omega (arith, p))
length-hex_digits_le (suc zero) (suc fuel) n acc h p =
    let small : ltb n 16 ≡ true = lt→ltb n 16 (omega (arith, h)) in rw small (omega arith)
length-hex_digits_le (suc (suc k)) (suc fuel) n acc h p =
    let next =
      length-hex_digits_le (suc k) fuel (n / 16) (n % 16 ∷ acc)
        (omega (arith, h, sixteen_times (suc k))) (omega arith) in
    elim (Bool-cases (ltb n 16)) [ inl y ↦ rw y (omega arith) | inr y ↦ rw y (omega (arith, next)) ]

-- A word has 16 digits exactly when its first is not zero.
length-hex_converter :
    (n : ℕ)
    → n < 2 ^ 64
    → ((2 ^ 60 ≤ n) × (length (hex_converter n) ≡ 16))
      ⊎ ((n < 2 ^ 60) × (length (hex_converter n) ≤ 15))
unfolding hex_converter
length-hex_converter n h = elim (Bool-cases (ltb n (2 ^ 60))) [
  | inl y ↦
      let small = ltb→lt n (2 ^ 60) y in
      inr
        (small, omega (arith, length-hex_digits_le 15 16 n [] (omega (arith, small)) (omega arith)))
  | inr y ↦
      let big : 2 ^ 60 ≤ n = ground (arith, y) in
      inl (
        big,
        omega (
          arith,
          length-hex_digits 15 15 n [] (omega arith) (omega (arith, big)) (omega (arith, h)),
        ),
      )
]

-- Both words of a round have 16 digits.
abbrev pub IsFull : (ℕ → ℕ) → ℕ → Type 0
IsFull draws i = (2 ^ 60 ≤ draws (2 * i)) × (2 ^ 60 ≤ draws (2 * i + 1))

abbrev pub token_of : (ℕ → ℕ) → ℕ → List ℕ
token_of draws i = hex_converter (draws (2 * i)) ++ hex_converter (draws (2 * i + 1))

round_ends :
    (draws : ℕ → ℕ) (i : ℕ)
    → ((k : ℕ) → draws k < 2 ^ 64)
    → (IsFull draws i × (length (token_of draws i) ≡ 32))
      ⊎ ((¬ IsFull draws i) × ((length (token_of draws i) == 32) ≡ false))
round_ends draws i below =
    let both = length-append (hex_converter (draws (2 * i))) (hex_converter (draws (2 * i + 1))) in
    elim (length-hex_converter (draws (2 * i)) (below (2 * i))) [
      | inr (s, l) ↦ elim (length-hex_converter (draws (2 * i + 1)) (below (2 * i + 1))) [
        | inr (_, r) ↦ inr (λ b. omega (arith, s, b.0), ground (arith, both, l, r))
        | inl (_, r) ↦ inr (λ b. omega (arith, s, b.0), ground (arith, both, l, r))
      ]
      | inl (a, l) ↦ elim (length-hex_converter (draws (2 * i + 1)) (below (2 * i + 1))) [
        | inl (b, r) ↦ inl ((a, b), omega (arith, both, l, r))
        | inr (s, r) ↦ inr (λ b. omega (arith, s, b.1), ground (arith, both, l, r))
      ]
    ]

one_later :
    (P : ℕ → Type 0) (i bound : ℕ)
    → ¬ P i
    → ((k : ℕ) → i + 1 ≤ k → k < bound → ¬ P k)
    → (k : ℕ) → i ≤ k
    → k < bound
    → ¬ P k
one_later P i bound n h k l b p = elim (Bool-cases (k == i)) [
  | inl y ↦ n (subst P ((==_iff k i).0 y) p)
  | inr y ↦ h k (ground (arith, l, y)) b p
]

-- The loop of `GetToken` from round `i` on, on words of 64 bits: it returns in the first round whose two
-- words are both at least 2^60, with their 32 digits, if there is one in the rounds that the fuel
-- allows for, and otherwise does not return in these rounds.
pub get_token_lem :
    (draws : ℕ → ℕ) (fuel i : ℕ)
    → ((k : ℕ) → draws k < 2 ^ 64)
    → ((get_token draws fuel i ≡ none) × ((k : ℕ) → i ≤ k → k < i + fuel → ¬ IsFull draws k))
      ⊎ ((k : ℕ) × (i ≤ k)
          × (k < i + fuel)
          × IsFull draws k
          × ((m : ℕ) → i ≤ m → m < k → ¬ IsFull draws m)
          × (length (token_of draws k) ≡ 32)
          × (get_token draws fuel i ≡ some (token_of draws k)))
unfolding get_token
get_token_lem draws zero i below = inl (refl, λ k l h. absurd (omega (arith, l, h)))
get_token_lem draws (suc fuel) i below = elim (round_ends draws i below) [
  | inl (full, l) ↦
      let ends : (length (token_of draws i) == 32) ≡ true =
        (==_iff (length (token_of draws i)) 32).1 l in
      inr (
        i,
        omega arith,
        omega arith,
        full,
        (λ m k h. absurd (omega (arith, k, h))),
        l,
        rw ends refl,
      )
  | inr (short, n) ↦ elim (get_token_lem draws fuel (i + 1) below) [
    | inl (stuck, none_full) ↦ inl (
      rw n stuck,
      λ k l h. one_later (IsFull draws) i (i + 1 + fuel) short none_full k l (omega (arith, h)),
    )
    | inr (k, l, f, full, first, size, e) ↦ inr (
      k,
      omega (arith, l),
      omega (arith, f),
      full,
      one_later (IsFull draws) i k short first,
      size,
      rw n e,
    )
  ]
]
