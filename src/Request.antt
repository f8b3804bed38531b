-- ===== src/Request.antt =====
-- src/utility/utility_functions.h and src/serialization/json_loader.cpp: what is read from a
-- request. The operations of boost::json are the fields of `Json`; each returns the exception that
-- it throws.
pub mod Token
pub mod Parameters
pub mod Numbers
use Prim.Native.Char.{code}
use dog_game_cpp.Common.{
  ℕ, zero, suc, ℤ, to_int, Bool, true, false, ◌||◌, Option, some, none, String, str_eq,
  if◌then◌else◌, leb, ltb, ◌==◌, Result, ok, err, ◌>>=◌, undefined, bad_delta_time,
}
use dog_game_cpp.DataTypes.{DogDirection, north, south, west, east, stop}

-- `size`, on texts of one byte per character.
unfoldable pub size : String → ℕ
size String.[] = 0
size (String.◌∷◌ c s) = suc (size s)

-- One of the letters of `Bearer`.
abbrev in_prefix : ℕ → Bool
in_prefix c = c == b'B' || c == b'e' || c == b'a' || c == b'r'

-- `find_first_of(prefix) != npos`
unfoldable pub has_prefix_letter : String → Bool
has_prefix_letter String.[] = false
has_prefix_letter (String.◌∷◌ c s) = in_prefix (code c) || has_prefix_letter s

-- `remove_prefix(n)`, which is undefined where the text is shorter.
unfoldable pub remove_prefix : ℕ → String → Result String
remove_prefix zero s = ok s
remove_prefix (suc n) String.[] = err undefined
remove_prefix (suc n) (String.◌∷◌ c s) = remove_prefix n s

-- `find_first_of(' ')`
unfoldable pub find_space : String → Option ℕ
find_space String.[] = none
find_space (String.◌∷◌ c s) =
    if code c == b' ' then some 0 else elim (find_space s) [ none ↦ none | some i ↦ some (suc i) ]

unfoldable pub rest_of : String → String
rest_of String.[] = String.[]
rest_of (String.◌∷◌ c s) = s

-- The loop of `GetAuthToken`; `none` is that the fuel did not suffice.
unfoldable pub strip_spaces : ℕ → String → Option String
strip_spaces zero auth = none
strip_spaces (suc fuel) auth = elim (find_space auth) [
  | none ↦ some auth
  | some zero ↦ strip_spaces fuel (rest_of auth)
  | some (suc i) ↦ strip_spaces fuel auth
]

-- The outer `Option` tells whether the loop ended.
unfoldable pub get_auth_token : ℕ → String → Result (Option String)
get_auth_token fuel auth =
    if has_prefix_letter auth
    then (remove_prefix 6 auth >>= λ rest. ok (strip_spaces fuel rest))
    else ok (some "")

-- The loop of `IsValidAuthToken`, with its condition as it stands.
unfoldable pub all_hex : String → Bool
all_hex String.[] = true
all_hex (String.◌∷◌ c s) =
    let rest = all_hex s in
    if ltb (code c) b'0' || ltb b'9' (code c) || ltb (code c) b'a' || ltb b'f' (code c)
    then false
    else rest

unfoldable pub is_valid_auth_token : String → ℕ → Bool
is_valid_auth_token token valid_size =
    let hex = all_hex token in if size token == valid_size then hex else false

pub record Json (J : Type 0) : Type 0 where
  pub parse : String → Result J
  pub field : J → String → Result J
  pub as_string : J → Result String
  pub as_object : J → Result J
  pub contains : J → String → Bool
  pub as_int64 : J → Result ℤ

-- Any other text is looked up without success, and `end()` is read.
unfoldable pub get_direction : String → Result DogDirection
get_direction direct =
    if str_eq direct "R"
    then ok east
    else if str_eq direct "L"
    then ok west
    else if str_eq direct "D"
    then ok south
    else if str_eq direct "U"
    then ok north
    else if str_eq direct ""
    then ok stop
    else err undefined

module _ {J : Type 0} (j : Json J) where
  -- The map id and the name, in the order in which `add_player` takes them.
  unfoldable pub parse_join_game_request : String → Result (String × String)
  parse_join_game_request body = do
    value ← j.parse body
    user ← j.field value "userName"
    user_name ← j.as_string user
    id ← j.field value "mapId"
    map_id ← j.as_string id
    ok (map_id, user_name)

  unfoldable pub get_move_direction : String → Result DogDirection
  get_move_direction body = do
    value ← j.parse body
    move ← j.field value "move"
    direction ← j.as_string move
    get_direction direction

  read_delta_time : String → Result ℤ
  read_delta_time body = do
    value ← j.parse body
    object ← j.as_object value
    if j.contains object "timeDelta"
        then (j.field object "timeDelta" >>= j.as_int64)
        else err bad_delta_time

  unfoldable pub parse_delta_time_request : String → Result ℤ
  unfolding read_delta_time
  parse_delta_time_request body = elim (read_delta_time body) [
    | ok delta ↦ ok (to_int delta)
    | err _ ↦ err bad_delta_time
  ]
