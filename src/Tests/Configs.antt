-- ===== src/Tests/Configs.antt =====
-- The theorems on the configuration file at concrete values.
use dog_game_cpp.Common.{
  ◌^◌, ◌*ℤ◌, leb_ℤ, ℤ, pos, ◌≡◌, refl, true, ◌||◌, [], ◌∷◌, String, str_eq, if◌then◌else◌, ok,
  arith, put,
}
use dog_game_cpp.Float.{IsNumber}
use dog_game_cpp.Float.Fixed.{Fixed, fixed_float}
use dog_game_cpp.DataTypes.{horizontal}
use dog_game_cpp.MapModel.{GameMap, Road, make_road, make_map, add_road}
use dog_game_cpp.Game.Data.{MapStorage}
use dog_game_cpp.Request.{Json}
use dog_game_cpp.MapParser.{
  ConfigJson, parse_each, add_all, empty_storage, coordinate, text_at, float_at, int_at, parse_road,
  parse_objects, read_defaults, parse_map, read_settings, read_maps, parse_maps,
}
use dog_game_cpp.MapParser.Storage.{IsStored, parse_maps-IsStored}
use dog_game_cpp.Tests.Values.{whole}

-- A value is the key under which it stands, a file has one map, and a map one road.
abbrev pub keys : Json String
keys = record {
  parse = λ s. ok s;
  field = λ v k. ok k;
  as_string = λ v. ok v;
  as_object = λ v. ok v;
  contains = λ v k. str_eq k "x1";
  as_int64 = λ v. ok (if str_eq v "x1" then pos 10 else pos 0);
}

abbrev pub config_keys : ConfigJson Fixed String
config_keys = record {
  as_array = λ v. ok (if str_eq v "maps" || str_eq v "roads" then "id" ∷ [] else []);
  as_float = λ v. ok (whole 1);
  serialize = λ v. "{}";
}

abbrev pub read_road : Road Fixed
read_road = make_road horizontal (record { x = whole 0; y = whole 0 }) (whole 10)

abbrev pub read_map : GameMap Fixed
read_map = record {
  id = "id";
  name = "name";
  roads = read_road ∷ [];
  offices = [];
  loots = [];
  dog_speed = whole 0;
  bag_capacity = pos 1;
}

abbrev pub read_storage : MapStorage Fixed
read_storage = record empty_storage { maps = ("id", read_map) ∷ []; maps_json = ("id", "{}") ∷ [] }

pub file_is_read : parse_maps keys config_keys "file" empty_storage ≡ ok read_storage
unfolding parse_maps read_settings read_maps parse_map text_at float_at int_at coordinate parse_road
    parse_objects parse_each read_defaults add_all add_road make_map put ◌*ℤ◌
file_is_read = refl

map_of_id : IsStored keys config_keys read_storage "file" "id"
map_of_id = parse_maps-IsStored keys config_keys "file" "id" file_is_read

leb_ℤ-self : (x : ℤ) → leb_ℤ x x ≡ true
leb_ℤ-self x = ground arith

pub of_int-IsNumber : (i : ℤ) → IsNumber (fixed_float.of_int i)
of_int-IsNumber i = leb_ℤ-self (i *ℤ pos (10 ^ 4))
