-- ===== src/Dog/Start.antt =====
-- Where a dog starts: the constructor and `spawn_dog_in_map` of src/core/Dog.cpp.
use dog_game_cpp.Common.{
  ℕ, ◌-◌, ◌<◌, ◌≡◌, refl, ℤ, pos, negsuc, ◌-ℤ◌, ◌≤ℤ◌, Bool, true, false, some, arith, ok, length,
  get_elem?, get_elem?_lt, at-pos, All, All-get_elem?, if◌then◌else◌,
}
use dog_game_cpp.Float.{Float, ◌≼◌, IsNumber, IsOrdered, fmin, fmax}
use dog_game_cpp.Utils.{Draw, IsUniform, get_random_int_number, get_random_float_number}
use dog_game_cpp.DataTypes.{Point, Inside}
use dog_game_cpp.MapModel.{GameMap, Road}
use dog_game_cpp.Dog.{
  Dog, make_dog, road_bound_rect, set_start_position_first_road, set_start_position_random_road,
  spawn_dog_in_map, random_point,
}
use dog_game_cpp.Dog.Adjacency.{find_adjacent_roads-lt, length-find_adjacent_roads}
use dog_game_cpp.Dog.Placement.{HasNumbers, HasCurrentRoad, IsPlaced}

nonneg_form : (i : ℤ) → pos 0 ≤ℤ i → (k : ℕ) × (i ≡ pos k)
nonneg_form (pos k) h = (k, refl)
nonneg_form (negsuc k) h = absurd (omega arith)

module _ {F : Type 0} ⦃f : Float F⦄ where
  -- A new dog stands on the first road of a map that has one and whose roads end at numbers.
  pub make_dog-HasCurrentRoad :
      (m : GameMap F) (default_bag_capacity : ℤ)
      → 0 < length m.roads
      → All HasNumbers m.roads
      → HasCurrentRoad (make_dog m default_bag_capacity)
  unfolding make_dog
  make_dog-HasCurrentRoad m default_bag_capacity h n = record {
    index = 0;
    road = (get_elem?_lt m.roads 0 h).0;
    is_current = refl;
    has_road = (get_elem?_lt m.roads 0 h).1;
    closed = (length-find_adjacent_roads m.roads, find_adjacent_roads-lt m.roads);
    numbers = n;
  }

  -- A dog that may be put on any of its roads.
  abbrev pub CanStart : Dog F → Type 0
  CanStart d = HasCurrentRoad d × (0 < length d.roads)

  pub index_within :
      (d : Draw F) (n : ℕ)
      → IsUniform d
      → 0 < n
      → (k : ℕ) × (get_random_int_number d (pos 0) (pos n -ℤ pos 1) ≡ pos k) × (k < n)
  unfolding get_random_int_number ◌-ℤ◌
  index_within d n u h =
      let top : pos n -ℤ pos 1 ≡ pos (n - 1) = ground arith in
      let (lo, hi) = u.int_bounds (pos 0) (pos (n - 1)) (omega arith) in
      let (k, e) = nonneg_form (d.int_number (pos 0) (pos (n - 1))) lo in
      (k, rw top (ground (arith, e)), ground (arith, e, hi))

  at_road-IsPlaced :
      (d : Dog F) (k : ℕ) (r : Road F) (p : Point F)
      → HasCurrentRoad d
      → get_elem? d.roads k ≡ some r
      → Inside (road_bound_rect r) p
      → IsPlaced (record d { current_road_index = pos k; position = p })
  at_road-IsPlaced d k r p v e inside = record {
    on_road = record {
      index = k;
      road = r;
      is_current = refl;
      has_road = e;
      closed = v.closed;
      numbers = v.numbers;
    };
    inside = inside;
  }

  module _ (laws : IsOrdered F) where
    open laws use {le_trans, le_of_lt, le_of_not_lt, not_lt_of_le, sub-literal_le, le-add_literal}

    -- A value between the ends is between the borders.
    widened :
        (a b v : F)
        → IsNumber a
        → IsNumber b
        → fmin a b ≼ v
        → v ≼ fmax a b
        → (f.sub (fmin a b) (f.literal 4 1) ≼ v) × (v ≼ f.add (fmax a b) (f.literal 4 1))
    widened a b v ha hb h k =
        let n : IsNumber (fmin a b) = ground arith in
        let m : IsNumber (fmax a b) = ground arith in
        (
          le_trans _ _ _ (sub-literal_le (fmin a b) 4 1 n) h,
          le_trans _ _ _ k (le-add_literal (fmax a b) 4 1 m),
        )

    ends :
        (a b : F)
        → IsNumber a
        → IsNumber b
        → (fmin a b ≼ a) × (fmin a b ≼ b) × (a ≼ fmax a b) × (b ≼ fmax a b)
    ends a b ha hb =
        ground (arith, le_of_lt b a, le_of_not_lt b a hb ha, le_of_lt a b, le_of_not_lt a b ha hb)

    start-Inside : (r : Road F) → HasNumbers r → Inside (road_bound_rect r) r.start
    unfolding road_bound_rect
    start-Inside r (a, b, c, d) =
        let x = ends r.start.x r.end.x a c in
        let y = ends r.start.y r.end.y b d in
        let (p, q) = widened r.start.x r.end.x r.start.x a c x.0 x.2 in
        let (s, t) = widened r.start.y r.end.y r.start.y b d y.0 y.2 in (p, q, s, t)

    set_start_position_first_road-IsPlaced :
        (d : Dog F)
        → CanStart d
        → (d' : Dog F) × (set_start_position_first_road d ≡ ok d') × IsPlaced d'
    unfolding set_start_position_first_road
    set_start_position_first_road-IsPlaced d (v, h) =
        let (r, e) = get_elem?_lt d.roads 0 h in
        (
          record d { current_road_index = pos 0; position = r.start },
          rw e,
          at_road-IsPlaced d 0 r r.start v e
              (start-Inside r (All-get_elem? HasNumbers d.roads 0 v.numbers e)),
        )

    float_within :
        (d : Draw F) (a b : F)
        → IsUniform d
        → IsNumber a
        → IsNumber b
        → let v =
            get_random_float_number d (if f.lt b a then b else a) (if f.lt b a then a else b) in
          (fmin a b ≼ v) × (v ≼ fmax a b)
    unfolding get_random_float_number
    float_within d a b u ha hb = ground (
      arith,
      le_of_lt b a,
      le_of_not_lt b a hb ha,
      le_of_lt a b,
      le_of_not_lt a b ha hb,
      not_lt_of_le a b,
      not_lt_of_le b a,
      u.float_bounds a b,
      u.float_bounds b a,
      le_trans (d.float_number a b) b a,
      le_trans b a (d.float_number a b),
    )

    -- A point of the road, drawn along it, is inside the road's rectangle.
    pub random_point-Inside :
        (along : Draw F) (r : Road F)
        → IsUniform along
        → HasNumbers r
        → Inside (road_bound_rect r) (random_point along r)
    unfolding road_bound_rect random_point
    random_point-Inside along r u (a, b, c, d) =
        let x = ends r.start.x r.end.x a c in
        let y = ends r.start.y r.end.y b d in
        let vx = float_within along r.start.x r.end.x u a c in
        let vy = float_within along r.start.y r.end.y u b d in
        ground (
          arith,
          widened r.start.x r.end.x r.start.x a c x.0 x.2,
          widened r.start.x r.end.x r.end.x a c x.1 x.3,
          widened r.start.y r.end.y r.start.y b d y.0 y.2,
          widened r.start.y r.end.y r.end.y b d y.1 y.3,
          widened r.start.x r.end.x _ a c vx.0 vx.1,
          widened r.start.y r.end.y _ b d vy.0 vy.1,
        )

    set_start_position_random_road-IsPlaced :
        (index along : Draw F) (d : Dog F)
        → IsUniform index
        → IsUniform along
        → CanStart d
        → (d' : Dog F) × (set_start_position_random_road index along d ≡ ok d') × IsPlaced d'
    unfolding set_start_position_random_road
    set_start_position_random_road-IsPlaced index along d ui ua (v, h) =
        let (k, e, in_range) = index_within index (length d.roads) ui h in
        let (r, g) = get_elem?_lt d.roads k in_range in
        let here =
          at-pos d.roads (get_random_int_number index (pos 0) (pos (length d.roads) -ℤ pos 1)) k e
            g in
        (
          record d { current_road_index = pos k; position = random_point along r },
          rw here (rw e),
          at_road-IsPlaced d k r (random_point along r) v g
              (random_point-Inside along r ua (All-get_elem? HasNumbers d.roads k v.numbers g)),
        )

    -- If the distributions keep to their bounds, a dog that has a road can be spawned, on the first
    -- road or on a random one, without undefined behaviour, and is then inside the rectangle of its
    -- current road.
    pub spawn_dog_in_map-IsPlaced :
        (random : Bool) (index along : Draw F) (d : Dog F)
        → IsUniform index
        → IsUniform along
        → CanStart d
        → (d' : Dog F) × (spawn_dog_in_map random index along d ≡ ok d') × IsPlaced d'
    unfolding spawn_dog_in_map
    spawn_dog_in_map-IsPlaced true index along d ui ua h =
        set_start_position_random_road-IsPlaced index along d ui ua h
    spawn_dog_in_map-IsPlaced false index along d ui ua h =
        set_start_position_first_road-IsPlaced d h
