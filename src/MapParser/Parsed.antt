-- ===== src/MapParser/Parsed.antt =====
-- What the maps are that src/core/MapParser.cpp reads.
use dog_game_cpp.Common.{
  ℤ, pos, ◌≡◌, refl, sym, ◌∙◌, subst, Bool, true, false, List, [], ◌∷◌, String, if◌then◌else◌,
  Bool-cases, Result, ok, ◌>>=◌, >>=-eq-ok, ok_injective, All, All-append, inl, inr,
}
use dog_game_cpp.Float.{Float}
use dog_game_cpp.DataTypes.{RoadType, horizontal, vertical}
use dog_game_cpp.MapModel.{
  Road, GameMap, make_road, make_map, add_road, add_office, add_loot, set_dog_speed,
  set_bag_capacity,
}
use dog_game_cpp.Request.{Json}
use dog_game_cpp.MapParser.{
  ConfigJson, parse_each, add_all, coordinate, text_at, float_at, int_at, parse_road, parse_office,
  parse_loot, parse_objects, read_defaults, parse_map,
}

parse_each-All {ℓ μ κ} :
    {A : Type ℓ} {B : Type μ} (P : B → Type κ) (parse_func : A → Result B) (xs : List A)
    {ys : List B}
    → ((x : A) (y : B) → parse_func x ≡ ok y → P y)
    → parse_each parse_func xs ≡ ok ys
    → All P ys
unfolding parse_each
parse_each-All P parse_func [] h e = rw (sym (ok_injective e)) tt
parse_each-All P parse_func (x ∷ xs) h e =
    let (y, p, e1) = >>=-eq-ok (parse_func x) _ e in
    let (ys, q, e2) = >>=-eq-ok (parse_each parse_func xs) _ e1 in
    rw (sym (ok_injective e2)) (h x y p, parse_each-All P parse_func xs h q)

-- A value that may be missing changes nothing, or what its step changes.
pub optional_kept {ℓ μ κ} :
    {A : Type ℓ} {B : Type μ} (P : A → Type κ) (present : Bool) (step : Result B) (update : B → A)
    (m : A) {m' : A}
    → (if present then (step >>= λ v. ok (update v)) else ok m) ≡ ok m'
    → P m
    → (present ≡ true → (v : B) → P (update v))
    → P m'
optional_kept P true step update m e p h =
    let (v, _, q) = >>=-eq-ok step _ e in subst P (ok_injective q) (h refl v)
optional_kept P false step update m e p h = subst P (ok_injective e) p

add_all_kept {ℓ μ κ} :
    {A : Type ℓ} {B : Type μ} (P : A → Type κ) (add : A → B → A) (m : A) (xs : List B)
    → P m
    → ((m : A) (x : B) → P m → P (add m x))
    → P (add_all add m xs)
unfolding add_all
add_all_kept P add m [] p h = p
add_all_kept P add m (x ∷ xs) p h = add_all_kept P add (add m x) xs (h m x p) h

module _ {F J : Type 0} ⦃f : Float F⦄ (j : Json J) (c : ConfigJson F J) where
  coordinate-of_int :
      (o : J) (key : String) {x : F} → coordinate j c o key ≡ ok x → (i : ℤ) × (x ≡ f.of_int i)
  unfolding coordinate
  coordinate-of_int o key e =
      let (v, p, e1) = >>=-eq-ok (j.field o key) _ e in
      let (i, q, e2) = >>=-eq-ok (j.as_int64 v) _ e1 in (i, sym (ok_injective e2))

  -- A road that is made from numbers of the configuration file, along one of the axes.
  abbrev pub IsGridRoad : Road F → Type 0
  IsGridRoad r =
      (k : RoadType) × (x0 : ℤ) × (y0 : ℤ) × (end : ℤ) × (r
        ≡ make_road k (record { x = f.of_int x0; y = f.of_int y0 }) (f.of_int end))

  along :
      (o : J) (r : Road F) (k : RoadType) (key : String)
      → (coordinate j c o "x0" >>= λ x0. coordinate j c o "y0" >>= λ y0.
          coordinate j c o key >>= λ end. ok (make_road k (record { x = x0; y = y0 }) end))
        ≡ ok r
      → IsGridRoad r
  along o r k key e =
      let (x0, p, e1) = >>=-eq-ok (coordinate j c o "x0") _ e in
      let (y0, q, e2) = >>=-eq-ok (coordinate j c o "y0") _ e1 in
      let (end, s, e3) = >>=-eq-ok (coordinate j c o key) _ e2 in
      let (i0, a) = coordinate-of_int o "x0" p in
      let (i1, b) = coordinate-of_int o "y0" q in
      let (i2, d) = coordinate-of_int o key s in
      (k, i0, i1, i2, rw (sym (ok_injective e3), a, b, d) refl)

  parse_road-IsGridRoad : (o : J) (r : Road F) → parse_road j c o ≡ ok r → IsGridRoad r
  unfolding parse_road
  parse_road-IsGridRoad o r e = elim (Bool-cases (j.contains o "x1")) [
    | inl y ↦ along o r horizontal "x1" (sym (rw y refl) ∙ e)
    | inr n ↦ along o r vertical "y1" (sym (rw n refl) ∙ e)
  ]

  -- A map as the file describes it: its roads are made from integers, it is found under its id, and
  -- its bag holds one thing where the file does not say how many.
  pub record IsParsed (o : J) (key : String) (m : GameMap F) : Type 0 where
    pub id_is : m.id ≡ key
    pub grid : All IsGridRoad m.roads
    pub bag : j.contains o "bagCapacity" ≡ false → m.bag_capacity ≡ pos 1

  read_defaults_kept :
      (o : J) (m : GameMap F) {m' : GameMap F}
      → read_defaults j c o m ≡ ok m'
      → IsParsed o m.id m
      → IsParsed o m.id m'
  unfolding read_defaults set_dog_speed set_bag_capacity
  read_defaults_kept o m e p =
      let (m1, q, e1) =
        >>=-eq-ok
          (if j.contains o "dogSpeed"
            then (float_at j c o "dogSpeed" >>= λ speed. ok (set_dog_speed m speed))
            else ok m)
          _ e in
      let p1 : IsParsed o m.id m1 =
        optional_kept (IsParsed o m.id) (j.contains o "dogSpeed") (float_at j c o "dogSpeed")
          (set_dog_speed m) m q p (λ _ v. record { id_is = p.id_is; grid = p.grid; bag = p.bag }) in
      optional_kept (IsParsed o m.id) (j.contains o "bagCapacity") (int_at j c o "bagCapacity")
        (set_bag_capacity m1) m1 e1 p1
        (λ y v. record { id_is = p1.id_is; grid = p1.grid; bag = λ n. cc })

  add_road_kept :
      (o : J) (key : String) (m : GameMap F) (roads : List (Road F))
      → IsParsed o key m
      → All IsGridRoad roads
      → IsParsed o key (add_all add_road m roads)
  unfolding add_all add_road
  add_road_kept o key m [] p g = p
  add_road_kept o key m (r ∷ roads) p g =
      add_road_kept o key (add_road m r) roads
        (record {
          id_is = p.id_is;
          grid = All-append IsGridRoad m.roads (r ∷ []) p.grid (g.0, tt);
          bag = p.bag;
        })
        g.1

  parse_objects-All {κ} :
      {T : Type 0} (P : T → Type κ) (o : J) (tag : String) (parse_func : J → Result T) {ys : List T}
      → ((x : J) (y : T) → parse_func x ≡ ok y → P y)
      → parse_objects j c o tag parse_func ≡ ok ys
      → All P ys
  unfolding parse_objects
  parse_objects-All P o tag parse_func h e =
      let (value, _, e1) = >>=-eq-ok (j.field o tag) _ e in
      let (objects, _, e2) = >>=-eq-ok (c.as_array value) _ e1 in
      parse_each-All P _ objects
        (λ x y q. let (x', _, q1) = >>=-eq-ok (j.as_object x) parse_func q in h x' y q1) e2

  pub parse_map-IsParsed :
      (o : J) (key : String) (m : GameMap F)
      → text_at j c o "id" ≡ ok key
      → parse_map j c o ≡ ok m
      → IsParsed o key m
  unfolding parse_map make_map add_office add_loot
  parse_map-IsParsed o key m k e =
      let (id, e1, f1) = >>=-eq-ok (text_at j c o "id") _ e in
      let (name, e2, f2) = >>=-eq-ok (text_at j c o "name") _ f1 in
      let (m1, e3, f3) = >>=-eq-ok (read_defaults j c o (make_map id name)) _ f2 in
      let (roads, e4, f4) = >>=-eq-ok (parse_objects j c o "roads" (parse_road j c)) _ f3 in
      let (offices, e5, f5) = >>=-eq-ok (parse_objects j c o "offices" (parse_office j c)) _ f4 in
      let (loots, e6, f6) = >>=-eq-ok (parse_objects j c o "lootTypes" (parse_loot j c)) _ f5 in
      let p1 : IsParsed o id m1 =
        read_defaults_kept o (make_map id name) e3
          (record { id_is = refl; grid = tt; bag = λ _. refl }) in
      let p2 =
        add_road_kept o id m1 roads p1
          (parse_objects-All IsGridRoad o "roads" (parse_road j c) parse_road-IsGridRoad e4) in
      let p3 : IsParsed o id (add_all add_office (add_all add_road m1 roads) offices) =
        add_all_kept (IsParsed o id) add_office _ offices p2
          (λ n x p. record { id_is = p.id_is; grid = p.grid; bag = p.bag }) in
      let p4 : IsParsed o id
          (add_all add_loot (add_all add_office (add_all add_road m1 roads) offices) loots) =
        add_all_kept (IsParsed o id) add_loot _ loots p3
          (λ n x p. record { id_is = p.id_is; grid = p.grid; bag = p.bag }) in
      subst (λ x. IsParsed o x m) (ok_injective (sym e1 ∙ k))
        (subst (IsParsed o id) (ok_injective f6) p4)
