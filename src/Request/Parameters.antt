-- ===== src/Request/Parameters.antt =====
-- src/utility/utility_functions.h: the target of a request and its parameters. `std::stoi` is written
-- out; the parameters of a target, which boost::urls finds, are given as a list of pairs.
use Prim.Native.Char.{code}
use dog_game_cpp.Common.{
  lookup, put_all, ℕ, ◌+◌, ◌-◌, ◌*◌, ◌^◌, ℤ, pos, ◌-ℤ◌, Bool, true, false, ◌||◌, ◌&&◌, List, [],
  Option, some, none, String, if◌then◌else◌, leb, ltb, ◌==◌,
}

-- The text before the last `?`, if there is one: `substr(0, rfind('?'))`.
unfoldable pub before_mark : String → Option String
before_mark String.[] = none
before_mark (String.◌∷◌ c s) = elim (before_mark s) [
  | some t ↦ some (String.◌∷◌ c t)
  | none ↦ if code c == b'?' then some "" else none
]

unfoldable pub get_request_string_without_parameters : String → String
get_request_string_without_parameters request = elim (before_mark request) [
  | some t ↦ t
  | none ↦ request
]

unfoldable pub get_request_parameters : List (String × String) → List (String × String)
get_request_parameters url_params = put_all [] url_params

abbrev pub is_blank : ℕ → Bool
is_blank c = c == 32 || (leb 9 c && leb c 13)

abbrev pub is_digit : ℕ → Bool
is_digit c = leb b'0' c && leb c b'9'

unfoldable pub skip_blanks : String → String
skip_blanks String.[] = String.[]
skip_blanks (String.◌∷◌ c s) =
    let rest = skip_blanks s in if is_blank (code c) then rest else String.◌∷◌ c s

-- The number that the leading digits write, and no number where there is no digit.
unfoldable pub read_digits : Option ℕ → String → Option ℕ
read_digits read String.[] = read
read_digits read (String.◌∷◌ c s) =
    let more = read_digits (some (elim read [ none ↦ 0 | some n ↦ n ] * 10 + (code c - b'0'))) s in
    if is_digit (code c) then more else read

-- A number that is no `int` is `std::out_of_range`.
unfoldable pub in_range : Bool → ℕ → Option ℤ
in_range true n = if leb n (2 ^ 31) then some (pos 0 -ℤ pos n) else none
in_range false n = if ltb n (2 ^ 31) then some (pos n) else none

unfoldable pub read_sign : String → Option ℤ
unfolding read_digits in_range
read_sign String.[] = none
read_sign (String.◌∷◌ c s) =
    let minus = code c == b'-' in
    let digits = if minus || code c == b'+' then s else String.◌∷◌ c s in
    elim (read_digits none digits) [ none ↦ none | some n ↦ in_range minus n ]

-- `none` is an exception.
unfoldable pub stoi : String → Option ℤ
unfolding skip_blanks read_sign
stoi s = read_sign (skip_blanks s)

abbrev pub max_db_records : ℤ
max_db_records = pos 100

-- The second half of the `try` block. A parameter that is missing, or that is no number, leaves
-- `max_items` as it is.
unfoldable pub read_max_items : List (String × String) → ℤ → ℤ × ℤ
read_max_items params start = elim (lookup "maxItems" params) [
  | none ↦ (start, max_db_records)
  | some text ↦ elim (stoi text) [ none ↦ (start, max_db_records) | some n ↦ (start, n) ]
]

-- `start` and `max_items`. Where `start` is no number the `try` block ends.
unfoldable pub parse_parameters : List (String × String) → ℤ × ℤ
parse_parameters params = elim (lookup "start" params) [
  | none ↦ read_max_items params (pos 0)
  | some text ↦ elim (stoi text) [
    | none ↦ (pos 0, max_db_records)
    | some n ↦ read_max_items params n
  ]
]
