-- ===== src/MapParser/Storage.antt =====
-- What `MapStorage::parse_maps` of src/core/MapParser.cpp leaves in the storage.
use mathlib.Core.Option.{some-injective}
use dog_game_cpp.Common.{
  All, ℤ, pos, ◌≡◌, refl, sym, ap, ◌∙◌, subst, ◌<◌, Bool, true, false, List, [], ◌∷◌, some, none,
  String, str_eq, if◌then◌else◌, Bool-cases, Option, Option-cases, err, Result, ok, ◌>>=◌,
  >>=-eq-ok, ok_injective, put, lookup, lookup-put, lookup-put_other, eq_iff, length, All-map, inl,
  inr,
}
use dog_game_cpp.Float.{Float, IsNumber}
use dog_game_cpp.MapModel.{Road, GameMap, make_road}
use dog_game_cpp.DataTypes.{horizontal, vertical}
use dog_game_cpp.Dog.{make_dog}
use dog_game_cpp.Dog.Placement.{HasNumbers, HasCurrentRoad}
use dog_game_cpp.Dog.Start.{make_dog-HasCurrentRoad}
use dog_game_cpp.Game.Data.{MapStorage}
use dog_game_cpp.Request.{Json}
use dog_game_cpp.MapParser.{
  ConfigJson, empty_storage, text_at, float_at, int_at, parse_map, read_settings, read_loot_config,
  read_maps, parse_maps,
}
use dog_game_cpp.MapParser.Parsed.{optional_kept, IsGridRoad, IsParsed, parse_map-IsParsed}

either_kept {ℓ κ} :
    {A : Type ℓ} (P : A → Type κ) (present : Bool) (step : Result A) (m : A) {m' : A}
    → (if present then step else ok m) ≡ ok m'
    → (step ≡ ok m' → P m')
    → P m
    → P m'
either_kept P true step m e h p = h e
either_kept P false step m e h p = subst P (ok_injective e) p

module _ {F J : Type 0} ⦃f : Float F⦄ (j : Json J) (c : ConfigJson F J) where
  -- The array `maps` of the configuration file.
  abbrev pub maps_of : J → Result (List J)
  maps_of config_content = do
    o ← j.as_object config_content
    value ← j.field o "maps"
    c.as_array value

  matching : J → String → Result String → Option J
  matching o key (ok name) = if str_eq name key then some o else none
  matching o key (err e) = none

  object_with : String → Result J → Option J
  object_with key (ok o) = matching o key (text_at j c o "id")
  object_with key (err e) = none

  later : Option J → Option J → Option J
  later (some o) found = some o
  later none found = found

  -- The last object of an array that has the key as its id, or else what was found before.
  pub last_object : String → List J → Option J → Option J
  unfolding matching object_with later
  last_object key [] found = found
  last_object key (x ∷ xs) found =
      last_object key xs (later (object_with key (j.as_object x)) found)

  -- What the storage has under a key for an object: its map and its text, or neither.
  abbrev pub Stores : MapStorage F → String → Option J → Type 0
  Stores s key none = (lookup key s.maps ≡ none) × (lookup key s.maps_json ≡ none)
  Stores s key (some o) =
      (m : GameMap F) × (lookup key s.maps ≡ some m)
      × (lookup key s.maps_json ≡ some (c.serialize o))
      × (text_at j c o "id" ≡ ok key)
      × (parse_map j c o ≡ ok m)

  -- The storage has under the key exactly what the last object of the file with this id says.
  abbrev pub IsStored : MapStorage F → J → String → Type 0
  IsStored s config_content key =
      (xs : List J) × (maps_of config_content ≡ ok xs) × Stores s key (last_object key xs none)

  put_other :
      (s : MapStorage F) (name text : String) (m : GameMap F) (key : String) (found : Option J)
      → str_eq name key ≡ false
      → Stores s key found
      → Stores
          (record s { maps_json = put name text s.maps_json; maps = put name m s.maps })
          key
          found
  put_other s name text m key none n v =
      rw (lookup-put_other name key m s.maps n, lookup-put_other name key text s.maps_json n) v
  put_other s name text m key (some o) n v =
      rw (lookup-put_other name key m s.maps n, lookup-put_other name key text s.maps_json n) v

  put_map :
      (s : MapStorage F) (name : String) (o : J) (m : GameMap F) (key : String) (found : Option J)
      → text_at j c o "id" ≡ ok name
      → parse_map j c o ≡ ok m
      → Stores s key found
      → Stores
          (record s { maps_json = put name (c.serialize o) s.maps_json; maps = put name m s.maps })
          key
          (later (object_with key (ok o)) found)
  unfolding matching object_with later
  put_map s name o m key found t e v = elim (Bool-cases (str_eq name key)) [
    | inl y ↦
        let same : name ≡ key = (eq_iff name key).0 y in
        rw (t, y)
          (
            m,
            subst (λ k. lookup k (put name m s.maps) ≡ some m) same (lookup-put name m s.maps),
            subst (λ k. lookup k (put name (c.serialize o) s.maps_json) ≡ some (c.serialize o)) same
                (lookup-put name (c.serialize o) s.maps_json),
            t ∙ ap ok same,
            e,
          )
    | inr n ↦ rw (t, n) (put_other s name (c.serialize o) m key found n v)
  ]

  read_maps-Stores :
      (xs : List J) (s : MapStorage F) {s' : MapStorage F} (key : String) (found : Option J)
      → read_maps j c xs s ≡ ok s'
      → Stores s key found
      → Stores s' key (last_object key xs found)
  unfolding read_maps last_object
  read_maps-Stores [] s key found e v = subst (λ x. Stores x key found) (ok_injective e) v
  read_maps-Stores (x ∷ xs) s key found e v =
      let (o, k, e1) = >>=-eq-ok (j.as_object x) _ e in
      let (name, t, e2) = >>=-eq-ok (text_at j c o "id") _ e1 in
      let (m, p, e3) = >>=-eq-ok (parse_map j c o) _ e2 in
      rw k (read_maps-Stores xs _ key _ e3 (put_map s name o m key found t p v))

  -- The settings leave the maps alone.
  IsEmpty : MapStorage F → Type 0
  IsEmpty s = (s.maps ≡ []) × (s.maps_json ≡ [])

  read_loot_config-IsEmpty :
      (o : J) (s : MapStorage F) {s' : MapStorage F}
      → read_loot_config j c o s ≡ ok s'
      → IsEmpty s
      → IsEmpty s'
  unfolding read_loot_config IsEmpty
  read_loot_config-IsEmpty o s e v =
      let (value, _, e1) = >>=-eq-ok (j.field o "lootGeneratorConfig") _ e in
      let (config, _, e2) = >>=-eq-ok (j.as_object value) _ e1 in
      let (period, _, e3) = >>=-eq-ok (float_at j c config "period") _ e2 in
      let (probability, _, e4) = >>=-eq-ok (float_at j c config "probability") _ e3 in
      subst IsEmpty (ok_injective e4) v

  read_settings-IsEmpty :
      (o : J) (s : MapStorage F) {s' : MapStorage F}
      → read_settings j c o s ≡ ok s'
      → IsEmpty s
      → IsEmpty s'
  unfolding read_settings IsEmpty
  read_settings-IsEmpty o s e v =
      let (s1, q1, e1) =
        >>=-eq-ok
          (if j.contains o "defaultDogSpeed"
            then (float_at j c o "defaultDogSpeed" >>= λ speed.
                ok (record s { default_dog_speed = speed }))
            else ok s)
          _ e in
      let v1 : IsEmpty s1 =
        optional_kept IsEmpty (j.contains o "defaultDogSpeed") (float_at j c o "defaultDogSpeed")
          (λ speed. record s { default_dog_speed = speed }) s q1 v (λ _ _. v) in
      let (s2, q2, e2) =
        >>=-eq-ok (if j.contains o "lootGeneratorConfig" then read_loot_config j c o s1 else ok s1)
          _ e1 in
      let v2 : IsEmpty s2 =
        either_kept IsEmpty (j.contains o "lootGeneratorConfig") (read_loot_config j c o s1) s1 q2
          (λ k. read_loot_config-IsEmpty o s1 k v1) v1 in
      let (s3, q3, e3) =
        >>=-eq-ok
          (if j.contains o "dogRetirementTime"
            then (float_at j c o "dogRetirementTime" >>= λ time.
                ok (record s2 { default_dog_retirement_time = time }))
            else ok s2)
          _ e2 in
      let v3 : IsEmpty s3 =
        optional_kept IsEmpty (j.contains o "dogRetirementTime")
          (float_at j c o "dogRetirementTime")
          (λ time. record s2 { default_dog_retirement_time = time }) s2 q3 v2 (λ _ _. v2) in
      optional_kept IsEmpty (j.contains o "defaultBagCapacity") (int_at j c o "defaultBagCapacity")
        (λ capacity. record s3 { default_bag_capacity = capacity }) s3 e3 v3 (λ _ _. v3)

  -- If the configuration can be read, then for every key the storage has a map and a text exactly if an
  -- object of the array `maps` of the file has the key as its id, and both were made from the last such
  -- object.
  pub parse_maps-IsStored :
      (config_content : J) {s : MapStorage F} (key : String)
      → parse_maps j c config_content empty_storage ≡ ok s
      → IsStored s config_content key
  unfolding parse_maps IsEmpty
  parse_maps-IsStored config_content key e =
      let (o, k1, e1) = >>=-eq-ok (j.as_object config_content) _ e in
      let (s1, q, e2) = >>=-eq-ok (read_settings j c o empty_storage) _ e1 in
      let (value, k2, e3) = >>=-eq-ok (j.field o "maps") _ e2 in
      let (map_array, k3, e4) = >>=-eq-ok (c.as_array value) _ e3 in
      let (no_maps, no_texts) = read_settings-IsEmpty o empty_storage q (refl, refl) in
      (
        map_array,
        rw (k1, k2) k3,
        read_maps-Stores map_array s1 key none e4 (rw no_maps refl, rw no_texts refl),
      )

  grid-HasNumbers :
      ((i : ℤ) → IsNumber (f.of_int i)) → (r : Road F) → IsGridRoad j c r → HasNumbers r
  unfolding make_road
  grid-HasNumbers h r (horizontal, x0, y0, end, e) = rw e (h x0, h y0, h end, h y0)
  grid-HasNumbers h r (vertical, x0, y0, end, e) = rw e (h x0, h y0, h x0, h end)

  -- A map that has been read has the id that it is found under, and roads that end at numbers.
  pub parse_maps-HasNumbers :
      (config_content : J) (key : String) {s : MapStorage F} {m : GameMap F}
      → ((i : ℤ) → IsNumber (f.of_int i))
      → parse_maps j c config_content empty_storage ≡ ok s
      → lookup key s.maps ≡ some m
      → (m.id ≡ key) × All HasNumbers m.roads
  parse_maps-HasNumbers config_content key {s} {m} h e l =
      let (xs, _, v) = parse_maps-IsStored config_content key e in
      elim (Option-cases (last_object key xs none)) [
        | inl n ↦ let w = subst (Stores s key) n v in let none_there = w.0 in cc
        | inr (o, q) ↦
            let (m', k, _, t, p) = subst (Stores s key) q v in
            let same : m' ≡ m = some-injective _ _ (sym k ∙ l) in
            let parsed = subst (IsParsed j c o key) same (parse_map-IsParsed j c o key m' t p) in
            (parsed.id_is, All-map m.roads (grid-HasNumbers h) parsed.grid)
      ]

  -- If the conversion of an integer is a number: a map that has been read and that has a road is
  -- found under its own id, and a new dog on it has a current road, with roads that end at numbers.
  pub parse_maps-make_dog :
      (config_content : J) (key : String) {s : MapStorage F} {m : GameMap F}
      → ((i : ℤ) → IsNumber (f.of_int i))
      → parse_maps j c config_content empty_storage ≡ ok s
      → lookup key s.maps ≡ some m
      → 0 < length m.roads
      → (m.id ≡ key) × HasCurrentRoad (make_dog m s.default_bag_capacity)
  parse_maps-make_dog config_content key {s} {m} h e l roads =
      let (id_is, numbers) = parse_maps-HasNumbers config_content key h e l in
      (id_is, make_dog-HasCurrentRoad m s.default_bag_capacity roads numbers)

  -- Where the object of a map has an id and can be read, but does not say how many things a bag
  -- holds, the bag of every new dog on the map holds one, whatever `defaultBagCapacity` is.
  pub parse_map-bag_capacity :
      (o : J) (key : String) (m : GameMap F) (default_bag_capacity : ℤ)
      → text_at j c o "id" ≡ ok key
      → parse_map j c o ≡ ok m
      → j.contains o "bagCapacity" ≡ false
      → (make_dog m default_bag_capacity).bag_capacity ≡ pos 1
  unfolding make_dog
  parse_map-bag_capacity o key m default_bag_capacity t p n =
      rw ((parse_map-IsParsed j c o key m t p).bag n) refl
