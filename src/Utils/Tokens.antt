-- ===== src/Utils/Tokens.antt =====
-- `PlayerToken::GetToken` of src/core/Utils.h: two random words in hexadecimal, drawn again until
-- the text has 32 digits. The engines `std::mt19937_64` are the parameter `draws`, the words they
-- give in order; a word is a number below 2^64. The text is the list of its digits.
use dog_game_cpp.Common.{
  ℕ, zero, suc, ◌+◌, ◌*◌, ◌%◌, List, [], ◌∷◌, ◌++◌, Option, some, none, if◌then◌else◌, ltb, ◌==◌,
  length,
}
use Prim.Native.Nat.{◌/◌}

-- `std::hex` prints the digits of a number without leading zeros, and `0` for zero.
unfoldable pub hex_digits : ℕ → ℕ → List ℕ → List ℕ
hex_digits zero n acc = acc
hex_digits (suc k) n acc =
    let rest = hex_digits k (n / 16) ((n % 16) ∷ acc) in if ltb n 16 then n ∷ acc else rest

unfoldable pub hex_converter : ℕ → List ℕ
unfolding hex_digits
hex_converter n = hex_digits 16 n []

abbrev pub default_token_size : ℕ
default_token_size = 32

-- The loop, with fuel; round `i` takes the words `2 i` and `2 i + 1`.
unfoldable pub get_token : (ℕ → ℕ) → ℕ → ℕ → Option (List ℕ)
get_token draws zero i = none
get_token draws (suc fuel) i =
    let token = hex_converter (draws (2 * i)) ++ hex_converter (draws (2 * i + 1)) in
    let again = get_token draws fuel (i + 1) in
    if length token == default_token_size then some token else again
