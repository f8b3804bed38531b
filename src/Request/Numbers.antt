-- ===== src/Request/Numbers.antt =====
-- Numbers in the parameters of a target: `std::stoi`, as src/utility/utility_functions.h uses it, reads
-- back what is written in decimal.
use Prim.Native.Char.{Char, code}
use Prim.Native.Nat.{◌/◌}
use dog_game_cpp.Common.{
  ℕ, zero, suc, ◌+◌, ◌*◌, ◌%◌, ◌^◌, ◌≤◌, ◌<◌, ◌≡◌, refl, sym, ap, ◌∙◌, ℤ, pos, negsuc, ◌-ℤ◌, Fits,
  String, Option, some, none, true, false, if◌then◌else◌, leb, ltb, ◌==◌, lt→ltb, ltb→lt,
  Bool-cases, inl, inr, arith,
}
use dog_game_cpp.Request.Parameters.{
  is_digit, is_blank, skip_blanks, read_digits, in_range, read_sign, stoi,
}

abbrev digit : ℕ → Char
digit zero = "0"
digit (suc zero) = "1"
digit (suc (suc zero)) = "2"
digit (suc (suc (suc zero))) = "3"
digit (suc (suc (suc (suc zero)))) = "4"
digit (suc (suc (suc (suc (suc zero))))) = "5"
digit (suc (suc (suc (suc (suc (suc zero)))))) = "6"
digit (suc (suc (suc (suc (suc (suc (suc zero))))))) = "7"
digit (suc (suc (suc (suc (suc (suc (suc (suc zero)))))))) = "8"
digit _ = "9"

-- The digits of a number before a text.
unfoldable pub write_digits : ℕ → ℕ → String → String
write_digits zero n tail = tail
write_digits (suc fuel) n tail =
    let more = write_digits fuel (n / 10) (String.◌∷◌ (digit (n % 10)) tail) in
    if ltb n 10 then String.◌∷◌ (digit n) tail else more

-- A number of up to ten digits in decimal.
unfoldable pub decimal : ℤ → String
decimal (pos n) = write_digits 10 n ""
decimal (negsuc n) = String.◌∷◌ "-" (write_digits 10 (n + 1) "")

code-digit : (n : ℕ) → n < 10 → code (digit n) ≡ 48 + n
code-digit zero h = refl
code-digit (suc zero) h = refl
code-digit (suc (suc zero)) h = refl
code-digit (suc (suc (suc zero))) h = refl
code-digit (suc (suc (suc (suc zero)))) h = refl
code-digit (suc (suc (suc (suc (suc zero))))) h = refl
code-digit (suc (suc (suc (suc (suc (suc zero)))))) h = refl
code-digit (suc (suc (suc (suc (suc (suc (suc zero))))))) h = refl
code-digit (suc (suc (suc (suc (suc (suc (suc (suc zero)))))))) h = refl
code-digit (suc (suc (suc (suc (suc (suc (suc (suc (suc zero))))))))) h = refl
code-digit (suc (suc (suc (suc (suc (suc (suc (suc (suc (suc n)))))))))) h =
    absurd (omega (arith, h))

is_digit-digit : (n : ℕ) → n < 10 → is_digit (code (digit n)) ≡ true
is_digit-digit n h = rw (code-digit n h) (ground (arith, h))

-- One step of the loop of `std::stoi`.
read_one :
    (read : Option ℕ) (n m : ℕ) (s : String)
    → n < 10
    → m ≡ elim read [ none ↦ 0 | some k ↦ k ] * 10 + n
    → read_digits read (String.◌∷◌ (digit n) s) ≡ read_digits (some m) s
unfolding read_digits
read_one read n m s h e =
    rw (is_digit-digit n h, code-digit n h) (ap (λ x. read_digits (some x) s) (omega (arith, e)))

read_digits-write_digits :
    (fuel n : ℕ) (tail : String)
    → n < 10 ^ suc fuel
    → read_digits none (write_digits (suc fuel) n tail) ≡ read_digits (some n) tail
unfolding write_digits
read_digits-write_digits zero n tail h =
    let small : n < 10 = omega (arith, h) in
    rw (lt→ltb n 10 small) (read_one none n n tail small (omega arith))
read_digits-write_digits (suc fuel) n tail h = elim (Bool-cases (ltb n 10)) [
  | inl y ↦ rw y (read_one none n n tail (ltb→lt n 10 y) (omega arith))
  | inr y ↦ rw y (
      read_digits-write_digits fuel (n / 10) (String.◌∷◌ (digit (n % 10)) tail) (omega (arith, h))
      ∙ read_one (some (n / 10)) (n % 10) n tail (omega arith) (omega arith))
]

-- The first character is a digit.
starts_with_digit :
    (fuel n : ℕ) (tail : String)
    → (d : ℕ) × (s : String) × (d < 10) × (write_digits (suc fuel) n tail ≡ String.◌∷◌ (digit d) s)
unfolding write_digits
starts_with_digit zero n tail = elim (Bool-cases (ltb n 10)) [
  | inl y ↦ (n, tail, ltb→lt n 10 y, rw y refl)
  | inr y ↦ (n % 10, tail, omega arith, rw y refl)
]
starts_with_digit (suc fuel) n tail = elim (Bool-cases (ltb n 10)) [
  | inl y ↦ (n, tail, ltb→lt n 10 y, rw y refl)
  | inr y ↦
      let (d, s, h, e) = starts_with_digit fuel (n / 10) (String.◌∷◌ (digit (n % 10)) tail) in
      (d, s, h, rw y e)
]

-- A text that starts with a digit has no blank and no sign in front.
no_blank :
    (d : ℕ) (s : String) → d < 10 → skip_blanks (String.◌∷◌ (digit d) s) ≡ String.◌∷◌ (digit d) s
unfolding skip_blanks
no_blank d s k =
    let visible : is_blank (code (digit d)) ≡ false = rw (code-digit d k) (ground (arith, k)) in
    rw visible refl

no_sign :
    (d n : ℕ) (s : String)
    → d < 10
    → read_digits none (String.◌∷◌ (digit d) s) ≡ some n
    → read_sign (String.◌∷◌ (digit d) s) ≡ in_range false n
unfolding read_sign
no_sign d n s k e =
    let no_minus : (code (digit d) == b'-') ≡ false = rw (code-digit d k) (ground (arith, k)) in
    let no_plus : (code (digit d) == b'+') ≡ false = rw (code-digit d k) (ground (arith, k)) in
    rw (read_sign, no_minus, no_plus, e, no_minus) refl

minus_sign :
    (n : ℕ) (s : String)
    → read_digits none s ≡ some n
    → read_sign (String.◌∷◌ "-" s) ≡ in_range true n
unfolding read_sign
minus_sign n s e = rw (read_sign, e) refl

stoi-digits : (n : ℕ) → n < 10 ^ 10 → stoi (write_digits 10 n "") ≡ in_range false n
unfolding stoi
stoi-digits n h =
    let (d, s, k, e) = starts_with_digit 9 n "" in
    let all = sym (ap (read_digits none) e) ∙ read_digits-write_digits 9 n "" h in
    rw (e, no_blank d s k) (no_sign d n s k all)

stoi-minus : (n : ℕ) → n < 10 ^ 10 → stoi (String.◌∷◌ "-" (write_digits 10 n "")) ≡ in_range true n
unfolding stoi skip_blanks
stoi-minus n h = minus_sign n (write_digits 10 n "") (read_digits-write_digits 9 n "" h)

le_leb : (a b : ℕ) → a ≤ b → leb a b ≡ true
le_leb a b h = ground arith

minus_pos : (n : ℕ) → pos 0 -ℤ pos (n + 1) ≡ negsuc n
unfolding ◌-ℤ◌
minus_pos n = ground arith

-- What is written of an `int`, `std::stoi` reads back.
pub stoi-decimal : (x : ℤ) → Fits x → stoi (decimal x) ≡ some x
unfolding decimal in_range ◌-ℤ◌
stoi-decimal (pos n) h =
    stoi-digits n (omega (arith, h.0)) ∙ rw (lt→ltb n (2 ^ 31) (omega (arith, h.0))) refl
stoi-decimal (negsuc n) h =
    stoi-minus (n + 1) (omega (arith, h.1))
    ∙ rw (le_leb (n + 1) (2 ^ 31) (omega (arith, h.1))) (ap some (minus_pos n))
