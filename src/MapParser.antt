-- ===== src/MapParser.antt =====
-- src/core/MapParser.cpp: the maps of the configuration file. `ReadJson` is not modelled, and
-- boost::json is the parameters `Json` and `ConfigJson`.
pub mod Parsed
pub mod Storage
use dog_game_cpp.Common.{
  ℤ, pos, negsuc, to_int, Bool, true, false, List, [], ◌∷◌, String, if◌then◌else◌, Result, ok, err,
  ◌>>=◌, put,
}
use dog_game_cpp.Float.{Float}
use dog_game_cpp.DataTypes.{Point, Office, Offset, Loot, horizontal, vertical}
use dog_game_cpp.MapModel.{
  Road, GameMap, make_road, make_map, add_road, add_office, add_loot, set_dog_speed,
  set_bag_capacity,
}
use dog_game_cpp.Game.Data.{MapStorage}
use dog_game_cpp.Request.{Json}

-- More of boost::json: `as_array`, `static_cast<float>` of `as_double`, and `serialize`.
pub record ConfigJson (F J : Type 0) : Type 0 where
  pub as_array : J → Result (List J)
  pub as_float : J → Result F
  pub serialize : J → String

-- The loop of `ParseObjects`: the objects in turn, up to the first that cannot be read.
unfoldable pub parse_each {ℓ μ} :
    {A : Type ℓ} {B : Type μ} → (A → Result B) → List A → Result (List B)
parse_each parse_func [] = ok []
parse_each parse_func (x ∷ xs) = do
  object ← parse_func x
  objects ← parse_each parse_func xs
  ok (object ∷ objects)

-- `for(const auto& x : xs) m->add(x)`
unfoldable pub add_all {ℓ μ} : {A : Type ℓ} {B : Type μ} → (A → B → A) → A → List B → A
add_all add m [] = m
add_all add m (x ∷ xs) = add_all add (add m x) xs

-- A storage before `parse_maps`.
abbrev pub empty_storage : {F : Type 0} ⦃f : Float F⦄ → MapStorage F
empty_storage ⦃f⦄ = record {
  maps = [];
  maps_json = [];
  loot_config = [];
  default_dog_retirement_time = f.literal 0 0;
  default_dog_speed = f.literal 1 0;
  default_bag_capacity = pos 3;
}

module _ {F J : Type 0} ⦃f : Float F⦄ (j : Json J) (c : ConfigJson F J) where
  -- `static_cast<float>(object.at(key).as_int64())`
  unfoldable pub coordinate : J → String → Result F
  coordinate object key = do
    value ← j.field object key
    number ← j.as_int64 value
    ok (f.of_int number)

  unfoldable pub text_at : J → String → Result String
  text_at object key = j.field object key >>= j.as_string

  unfoldable pub float_at : J → String → Result F
  float_at object key = j.field object key >>= c.as_float

  -- `static_cast<int>(object.at(key).as_int64())`
  unfoldable pub int_at : J → String → Result ℤ
  int_at object key = do value ← j.field object key; number ← j.as_int64 value; ok (to_int number)

  unfoldable pub parse_road : J → Result (Road F)
  parse_road road_object =
      if j.contains road_object "x1"
      then (coordinate road_object "x0" >>= λ x0. coordinate road_object "y0" >>= λ y0.
          coordinate road_object "x1" >>= λ x1.
          ok (make_road horizontal (record { x = x0; y = y0 }) x1))
      else (coordinate road_object "x0" >>= λ x0. coordinate road_object "y0" >>= λ y0.
          coordinate road_object "y1" >>= λ y1.
          ok (make_road vertical (record { x = x0; y = y0 }) y1))

  unfoldable pub parse_office : J → Result (Office F)
  parse_office office_object = do
    id ← text_at office_object "id"
    x ← coordinate office_object "x"
    y ← coordinate office_object "y"
    dx ← coordinate office_object "offsetX"
    dy ← coordinate office_object "offsetY"
    ok (record {
      id = id;
      position = record { x = x; y = y };
      offset = record { dx = dx; dy = dy };
    })

  unfoldable pub parse_loot : J → Result (Loot F)
  parse_loot loot_object = do
    name ← text_at loot_object "name"
    file ← text_at loot_object "file"
    type ← text_at loot_object "type"
    rotation ←
        if j.contains loot_object "rotation" then int_at loot_object "rotation" else ok (negsuc 0)
    color ← if j.contains loot_object "color" then text_at loot_object "color" else ok ""
    scale ← float_at loot_object "scale"
    score ← if j.contains loot_object "value" then int_at loot_object "value" else ok (pos 0)
    ok (record {
      name = name;
      file = file;
      type = type;
      rotation = rotation;
      color = color;
      scale = scale;
      score = score;
    })

  unfoldable pub parse_objects {ℓ} : {T : Type ℓ} → J → String → (J → Result T) → Result (List T)
  parse_objects object object_tag parse_func = do
    value ← j.field object object_tag
    objects_array ← c.as_array value
    parse_each (λ x. j.as_object x >>= parse_func) objects_array

  -- The first part of `parse_map`: a map with what may be missing in the configuration.
  unfoldable pub read_defaults : J → GameMap F → Result (GameMap F)
  read_defaults o m = do
    m1 ←
        if j.contains o "dogSpeed"
        then (float_at o "dogSpeed" >>= λ speed. ok (set_dog_speed m speed))
        else ok m
    if j.contains o "bagCapacity"
        then (int_at o "bagCapacity" >>= λ capacity. ok (set_bag_capacity m1 capacity))
        else ok m1

  unfoldable pub parse_map : J → Result (GameMap F)
  parse_map o = do
    map_id ← text_at o "id"
    map_name ← text_at o "name"
    m ← read_defaults o (make_map map_id map_name)
    roads ← parse_objects o "roads" parse_road
    offices ← parse_objects o "offices" parse_office
    loots ← parse_objects o "lootTypes" parse_loot
    ok (add_all add_loot (add_all add_office (add_all add_road m roads) offices) loots)

  unfoldable pub read_loot_config : J → MapStorage F → Result (MapStorage F)
  read_loot_config o s = do
    value ← j.field o "lootGeneratorConfig"
    config ← j.as_object value
    period ← float_at config "period"
    probability ← float_at config "probability"
    ok (record s {
      loot_config = put "probability" probability (put "period" period s.loot_config);
    })

  -- The first part of `parse_maps`: the values that may be missing.
  unfoldable pub read_settings : J → MapStorage F → Result (MapStorage F)
  read_settings o s = do
    s1 ←
        if j.contains o "defaultDogSpeed"
        then (float_at o "defaultDogSpeed" >>= λ speed. ok (record s { default_dog_speed = speed }))
        else ok s
    s2 ← if j.contains o "lootGeneratorConfig" then read_loot_config o s1 else ok s1
    s3 ←
        if j.contains o "dogRetirementTime"
        then (float_at o "dogRetirementTime" >>= λ time.
            ok (record s2 { default_dog_retirement_time = time }))
        else ok s2
    if j.contains o "defaultBagCapacity"
        then (int_at o "defaultBagCapacity" >>= λ capacity.
            ok (record s3 { default_bag_capacity = capacity }))
        else ok s3

  -- The loop of `parse_maps`.
  unfoldable pub read_maps : List J → MapStorage F → Result (MapStorage F)
  read_maps [] s = ok s
  read_maps (x ∷ xs) s = do
    cur_map ← j.as_object x
    map_name ← text_at cur_map "id"
    m ← parse_map cur_map
    read_maps xs (record s {
      maps_json = put map_name (c.serialize cur_map) s.maps_json;
      maps = put map_name m s.maps;
    })

  unfoldable pub parse_maps : J → MapStorage F → Result (MapStorage F)
  parse_maps config_content s = do
    o ← j.as_object config_content
    s1 ← read_settings o s
    value ← j.field o "maps"
    map_array ← c.as_array value
    read_maps map_array s1
