-- ===== src/DataTypes/Directions.antt =====
-- The two tables of src/core/DataTypes.cpp between directions and letters.
use dog_game_cpp.Common.{◌≡◌, refl, String, if◌then◌else◌, arith, str_eq, eq_iff}
use dog_game_cpp.Common.{Result, ok, err, out_of_range}
use dog_game_cpp.DataTypes.{DogDirection, north, south, west, east, stop}

unfoldable pub string_from_direction : DogDirection → String
string_from_direction north = "U"
string_from_direction south = "D"
string_from_direction west = "L"
string_from_direction east = "R"
string_from_direction stop = ""

-- `conv_map.at` throws `std::out_of_range` on any other text.
unfoldable pub direction_from_string : String → Result DogDirection
direction_from_string d =
    if str_eq d "U"
    then ok north
    else if str_eq d "D"
    then ok south
    else if str_eq d "L"
    then ok west
    else if str_eq d "R"
    then ok east
    else if str_eq d ""
    then ok stop
    else err out_of_range

-- Each direction is read back from its letter.
pub direction_from_string-string_from_direction :
    (d : DogDirection) → direction_from_string (string_from_direction d) ≡ ok d
unfolding direction_from_string string_from_direction
direction_from_string-string_from_direction north = refl
direction_from_string-string_from_direction south = refl
direction_from_string-string_from_direction west = refl
direction_from_string-string_from_direction east = refl
direction_from_string-string_from_direction stop = refl

-- A text that is read as a direction is the letter that is written for it.
pub string_from_direction-direction_from_string :
    (s : String) (d : DogDirection) → direction_from_string s ≡ ok d → string_from_direction d ≡ s
unfolding direction_from_string string_from_direction
string_from_direction-direction_from_string s d e =
    ground (arith, eq_iff s "U", eq_iff s "D", eq_iff s "L", eq_iff s "R", eq_iff s "")
