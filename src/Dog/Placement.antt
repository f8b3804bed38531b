-- ===== src/Dog/Placement.antt =====
-- Where `Dog::change_position` of src/core/Dog.cpp puts a dog.
use dog_game_cpp.Common.{
  ℕ, zero, suc, ◌<◌, ◌≡◌, refl, sym, subst, ◌∙◌, ◌⊎◌, inl, inr, ℤ, pos, true, List, [], ◌∷◌, Option,
  some, none, arith, ok, length, get_elem?, get_elem?_lt, lt-length, All-get_elem?, at-pos, get_or,
  All, Bool-cases,
}
use dog_game_cpp.Float.{Float, ◌≼◌, IsNumber, IsOrdered, fmin, fmax}
use dog_game_cpp.DataTypes.{Point, Inside, point_inside}
use dog_game_cpp.MapModel.{Road}
use dog_game_cpp.MapModel.Bounds.{
  IsProper, Inside-of-point_inside, correct_dog_position_inside_road-Inside,
}
use dog_game_cpp.Dog.{
  Dog, road_bound_rect, get_current_road_bound_rect, search_roads, enter_road, leave_road,
  search_position_inside_adjacent_roads, evaluate_new_position, change_position,
}
use dog_game_cpp.Dog.Roads.{contains}

get_elem?-get_or :
    (xs : List (List ℕ)) (i : ℕ) → i < length xs → get_elem? xs i ≡ some (get_or xs i [])
get_elem?-get_or [] i h = elim h [ ]
get_elem?-get_or (x ∷ xs) zero h = refl
get_elem?-get_or (x ∷ xs) (suc i) h = get_elem?-get_or xs i (omega arith)

-- Every neighbour in the table is a road.
abbrev pub IsClosed : List (List ℕ) → ℕ → Type 0
IsClosed table n = (length table ≡ n) × ((a b : ℕ) → contains (get_or table a []) b ≡ true → b < n)

module _ {F : Type 0} ⦃f : Float F⦄ where
  abbrev pub HasNumbers : Road F → Type 0
  HasNumbers r = IsNumber r.start.x × IsNumber r.start.y × IsNumber r.end.x × IsNumber r.end.y

  -- The dog has a current road, the table of neighbours fits the roads, and their ends are numbers.
  pub record HasCurrentRoad (d : Dog F) : Type 0 where
    pub index : ℕ
    pub road : Road F
    pub is_current : d.current_road_index ≡ pos index
    pub has_road : get_elem? d.roads index ≡ some road
    pub closed : IsClosed d.adjacent_roads (length d.roads)
    pub numbers : All HasNumbers d.roads

  -- Moreover its position is inside the rectangle of that road.
  pub record IsPlaced (d : Dog F) : Type 0 where
    pub on_road : HasCurrentRoad d
    pub inside : Inside (road_bound_rect on_road.road) d.position

  -- The position is inside the rectangle of the current road.
  abbrev pub IsInside : Dog F → Type 0
  IsInside d =
      (index : ℕ) × (road : Road F) × (d.current_road_index ≡ pos index)
      × (get_elem? d.roads index ≡ some road)
      × Inside (road_bound_rect road) d.position

  -- The second dog is where the first one is.
  abbrev pub SamePlace : Dog F → Dog F → Type 0
  SamePlace d d' =
      (d'.current_road_index ≡ d.current_road_index)
      × (d'.roads ≡ d.roads)
      × (d'.position ≡ d.position)

  -- The dog has come to a place inside the rectangle of its current road, or has stayed where it was.
  abbrev pub Settles : Dog F → Dog F → Type 0
  Settles d d' = IsInside d' ⊎ SamePlace d d'

  pub IsInside-SamePlace : (d d' : Dog F) → SamePlace d d' → IsInside d → IsInside d'
  IsInside-SamePlace d d' (at_index, at_roads, at_position) (i, r, e, k, inside) = (
    i,
    r,
    at_index ∙ e,
    subst (λ rs. get_elem? rs i ≡ some r) (sym at_roads) k,
    subst (Inside (road_bound_rect r)) (sym at_position) inside,
  )

  pub IsInside-IsPlaced : (d : Dog F) → IsPlaced d → IsInside d
  IsInside-IsPlaced d v =
      (v.on_road.index, v.on_road.road, v.on_road.is_current, v.on_road.has_road, v.inside)

  -- What a search for a position may answer: nothing, or a road that contains it.
  abbrev Answers : Dog F → Point F → Option ℕ → Type 0
  Answers d p none = Unit
  Answers d p (some i) =
      (r : Road F) × (get_elem? d.roads i ≡ some r) × Inside (road_bound_rect r) p

  module _ (laws : IsOrdered F) where
    open laws use {le_trans, le_of_lt, le_of_not_lt, sub-literal_le, le-add_literal}

    span :
        (a b : F)
        → IsNumber a
        → IsNumber b
        → f.sub (fmin a b) (f.literal 4 1) ≼ f.add (fmax a b) (f.literal 4 1)
    span a b ha hb =
        let lo = fmin a b in
        let hi = fmax a b in
        let n : lo ≼ lo = ground arith in
        let m : hi ≼ hi = ground arith in
        let mid : lo ≼ hi =
          ground
            (arith, le_of_lt b a, le_of_not_lt b a hb ha, le_of_lt a b, le_of_not_lt a b ha hb) in
        le_trans _ _ _ (sub-literal_le lo 4 1 n) (le_trans _ _ _ mid (le-add_literal hi 4 1 m))

    road_bound_rect-IsProper : (r : Road F) → HasNumbers r → IsProper (road_bound_rect r)
    unfolding road_bound_rect
    road_bound_rect-IsProper r (a, b, c, d) =
        (span r.start.x r.end.x a c, span r.start.y r.end.y b d)

    search_roads_lem :
        (d : Dog F) (p : Point F) (rows : List ℕ)
        → ((b : ℕ) → contains rows b ≡ true → b < length d.roads)
        → (o : Option ℕ) × (search_roads d p rows ≡ ok o) × Answers d p o
    unfolding search_roads get_current_road_bound_rect
    search_roads_lem d p [] h = (none, refl, tt)
    search_roads_lem d p (i ∷ rows) h =
        let (r, e) = get_elem?_lt d.roads i (h i (ground arith)) in
        elim (Bool-cases (point_inside (road_bound_rect r) p)) [
          | inl hit ↦
              (some i, rw (e, hit), (r, e, Inside-of-point_inside (road_bound_rect r) p hit))
          | inr miss ↦
              let (o, q, ans) = search_roads_lem d p rows (λ b m. h b (ground (arith, m))) in
              (o, rw (e, miss) q, ans)
        ]

    search_position_lem :
        (d : Dog F) (p : Point F)
        → HasCurrentRoad d
        → (o : Option ℕ) × (search_position_inside_adjacent_roads d p ≡ ok o) × Answers d p o
    unfolding search_position_inside_adjacent_roads
    search_position_lem d p v =
        let i = v.index in
        let in_table : i < length d.adjacent_roads =
          omega (arith, lt-length d.roads i v.has_road, v.closed.0) in
        let row = get_or d.adjacent_roads i [] in
        let (o, e, ans) = search_roads_lem d p row (v.closed.1 i) in
        let here =
          at-pos d.adjacent_roads d.current_road_index i v.is_current
            (get_elem?-get_or d.adjacent_roads i in_table) in
        (o, rw here e, ans)

    enter_road-IsPlaced :
        (d : Dog F) (p : Point F) (v : HasCurrentRoad d) (o : Option ℕ)
        → IsNumber p.x
        → IsNumber p.y
        → Answers d p o
        → IsPlaced (enter_road d p (road_bound_rect v.road) o)
    unfolding enter_road
    enter_road-IsPlaced d p v none nx ny ans = record {
      on_road = record {
        index = v.index;
        road = v.road;
        is_current = v.is_current;
        has_road = v.has_road;
        closed = v.closed;
        numbers = v.numbers;
      };
      inside =
          correct_dog_position_inside_road-Inside laws p (road_bound_rect v.road)
            (road_bound_rect-IsProper v.road
              (All-get_elem? HasNumbers d.roads v.index v.numbers v.has_road))
            nx ny;
    }
    enter_road-IsPlaced d p v (some i) nx ny (r, e, inside) = record {
      on_road = record {
        index = i;
        road = r;
        is_current = refl;
        has_road = e;
        closed = v.closed;
        numbers = v.numbers;
      };
      inside = inside;
    }

    -- A dog with a current road whose new position is a pair of numbers moves without undefined behaviour, and
    -- is then inside the rectangle of its current road, on each of the three branches: it stays on
    -- the road, enters a neighbouring one, or is put back to the border.
    pub change_position-IsPlaced :
        (d : Dog F) (delta_time : ℤ)
        → HasCurrentRoad d
        → IsNumber (evaluate_new_position d delta_time).x
        → IsNumber (evaluate_new_position d delta_time).y
        → (d' : Dog F) × (change_position d delta_time ≡ ok d') × IsPlaced d'
    unfolding change_position get_current_road_bound_rect leave_road
    change_position-IsPlaced d delta_time v nx ny =
        let p = evaluate_new_position d delta_time in
        let here = at-pos d.roads d.current_road_index v.index v.is_current v.has_road in
        elim (Bool-cases (point_inside (road_bound_rect v.road) p)) [
          | inl hit ↦ (
            record d { position = p },
            rw (here, hit),
            record {
              on_road = record {
                index = v.index;
                road = v.road;
                is_current = v.is_current;
                has_road = v.has_road;
                closed = v.closed;
                numbers = v.numbers;
              };
              inside = Inside-of-point_inside (road_bound_rect v.road) p hit;
            },
          )
          | inr miss ↦
              let (o, e, ans) = search_position_lem d p v in
              (
                enter_road d p (road_bound_rect v.road) o,
                rw (here, miss, e),
                enter_road-IsPlaced d p v o nx ny ans,
              )
        ]
