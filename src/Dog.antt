-- ===== src/Dog.antt =====
-- src/core/Dog.h and src/core/Dog.cpp: a dog on the roads of its map. Methods that change the dog
-- return the new dog; `roads_[i]` outside the vector is `err undefined`. The map is not changed
-- once it is parsed, so the dog holds it by value.
pub mod Roads
pub mod Table
pub mod Adjacency
pub mod Placement
pub mod Bag
pub mod Frame
pub mod Start
use dog_game_cpp.Common.{
  ℕ, ◌-◌, ◌^◌, ℤ, pos, negsuc, ◌-ℤ◌, int_add, ltb, leb, eqb_ℤ, Bool, true, false, not, ◌&&◌, ◌||◌,
  List, [], ◌∷◌, ◌++◌, map, Option, some, none, if◌then◌else◌, Result, ok, err, ◌>>=◌, at, length,
}
use dog_game_cpp.Float.{Float, fmin, fmax}
use dog_game_cpp.DataTypes.{
  Point, LootInfo, GatheredLootItem, DogState, DogSpeed, RoadBoundRect, DogDirection, north, south,
  west, east, stop, point_inside,
}
use dog_game_cpp.DataTypes.Directions.{string_from_direction}
use dog_game_cpp.MapModel.{GameMap, Road, is_horizontal, correct_dog_position_inside_road}
use dog_game_cpp.Collision.{Gatherer}
use dog_game_cpp.Utils.{Draw, get_random_int_number, get_random_float_number}
use Roads.{find_adjacent_roads}

pub record Dog (F : Type 0) : Type 0 where
  pub adjacent_roads : List (List ℕ)
  pub map : GameMap F
  pub roads : List (Road F)
  pub direction : DogDirection
  pub position : Point F
  pub speed : DogSpeed F
  pub gathered_loots : List (LootInfo F)
  pub idle_time : ℤ
  pub current_road_index : ℤ
  pub score : ℤ
  pub play_time : ℤ
  pub bag_capacity : ℤ

-- An `int` that is compared with a `size_t`: it is converted to 64 bits without a sign.
abbrev pub to_size : ℤ → ℕ
to_size (pos n) = n
to_size (negsuc n) = 2 ^ 64 - 1 - n

-- The direction that the dog keeps: `STOP` does not replace it.
unfoldable pub turned : DogDirection → DogDirection → DogDirection
turned old stop = old
turned old new = new

abbrev pub is_stop : DogDirection → Bool
is_stop stop = true
is_stop _ = false

module _ {F : Type 0} ⦃f : Float F⦄ where
  -- The constructor `Dog::Dog`.
  unfoldable pub make_dog : GameMap F → ℤ → Dog F
  make_dog m default_bag_capacity = record {
    adjacent_roads = find_adjacent_roads m.roads;
    map = m;
    roads = m.roads;
    direction = north;
    position = record { x = f.literal 0 0; y = f.literal 0 0 };
    speed = record { vx = f.literal 0 0; vy = f.literal 0 0 };
    gathered_loots = [];
    idle_time = pos 0;
    current_road_index = pos 0;
    score = pos 0;
    play_time = pos 0;
    bag_capacity = if eqb_ℤ m.bag_capacity (pos 0) then default_bag_capacity else m.bag_capacity;
  }

  -- The table `dir` of `Dog::set_speed`, which has every direction.
  unfoldable pub speed_towards : DogDirection → F → DogSpeed F
  speed_towards east speed = record { vx = speed; vy = f.literal 0 0 }
  speed_towards west speed = record { vx = f.neg speed; vy = f.literal 0 0 }
  speed_towards south speed = record { vx = f.literal 0 0; vy = speed }
  speed_towards north speed = record { vx = f.literal 0 0; vy = f.neg speed }
  speed_towards stop speed = record { vx = f.literal 0 0; vy = f.literal 0 0 }

  unfoldable pub set_speed : Dog F → DogDirection → F → Dog F
  set_speed d direction speed = record d {
    direction = turned d.direction direction;
    speed = speed_towards direction speed;
  }

  unfoldable pub set_start_position_first_road : Dog F → Result (Dog F)
  set_start_position_first_road d = do
    road ← at d.roads (pos 0)
    ok (record d { current_road_index = pos 0; position = road.start })

  -- Two points, exchanged if the test holds.
  abbrev pub ordered : Bool → Point F → Point F → Point F × Point F
  ordered swapped start end = if swapped then (end, start) else (start, end)

  -- The position that `set_start_position_random_road` draws on the road.
  unfoldable pub random_point : Draw F → Road F → Point F
  random_point along road =
      let (left, right) = ordered (f.lt road.end.x road.start.x) road.start road.end in
      let (low, high) = ordered (f.lt road.end.y road.start.y) road.start road.end in
      if is_horizontal road
      then record { x = get_random_float_number along left.x right.x; y = left.y }
      else record { x = low.x; y = get_random_float_number along low.y high.y }

  unfoldable pub set_start_position_random_road : Draw F → Draw F → Dog F → Result (Dog F)
  set_start_position_random_road index along d =
      let i = get_random_int_number index (pos 0) (pos (length d.roads) -ℤ pos 1) in
      at d.roads i >>= λ road.
      ok (record d { current_road_index = i; position = random_point along road })

  unfoldable pub spawn_dog_in_map : Bool → Draw F → Draw F → Dog F → Result (Dog F)
  spawn_dog_in_map spawn_in_random_point index along d =
      if spawn_in_random_point
      then set_start_position_random_road index along d
      else set_start_position_first_road d

  -- The rectangle of a road: its extent, widened by `dS` = 0.4 on each side.
  unfoldable pub road_bound_rect : Road F → RoadBoundRect F
  road_bound_rect road = record {
    min_point = record {
      x = f.sub (fmin road.start.x road.end.x) (f.literal 4 1);
      y = f.sub (fmin road.start.y road.end.y) (f.literal 4 1);
    };
    max_point = record {
      x = f.add (fmax road.start.x road.end.x) (f.literal 4 1);
      y = f.add (fmax road.start.y road.end.y) (f.literal 4 1);
    };
  }

  unfoldable pub get_current_road_bound_rect : Dog F → ℤ → Result (RoadBoundRect F)
  get_current_road_bound_rect d road_index = do
    road ← at d.roads road_index
    ok (road_bound_rect road)

  -- The loop over one set of neighbours, in ascending order.
  unfoldable pub search_roads : Dog F → Point F → List ℕ → Result (Option ℕ)
  search_roads d p [] = ok none
  search_roads d p (road_index ∷ rest) =
      let next = search_roads d p rest in
      do
        bound_rect ← get_current_road_bound_rect d (pos road_index)
        if point_inside bound_rect p then ok (some road_index) else next

  unfoldable pub search_position_inside_adjacent_roads : Dog F → Point F → Result (Option ℕ)
  search_position_inside_adjacent_roads d p = do
    neighbours ← at d.adjacent_roads d.current_road_index
    search_roads d p neighbours

  unfoldable pub evaluate_new_position : Dog F → ℤ → Point F
  evaluate_new_position d delta_time =
      let dt = f.div (f.of_int delta_time) (f.of_int (pos 1000)) in
      record {
        x = f.add d.position.x (f.mul dt d.speed.vx);
        y = f.add d.position.y (f.mul dt d.speed.vy);
      }

  -- What `change_position` does with the answer of the search.
  unfoldable pub enter_road : Dog F → Point F → RoadBoundRect F → Option ℕ → Dog F
  enter_road d new_pos bound_rect (some road_index) = record d {
    current_road_index = pos road_index;
    position = new_pos;
  }
  enter_road d new_pos bound_rect none = record d {
    position = correct_dog_position_inside_road new_pos bound_rect;
    speed = record { vx = f.literal 0 0; vy = f.literal 0 0 };
  }

  -- `change_position` outside the rectangle of the current road.
  unfoldable pub leave_road : Dog F → Point F → RoadBoundRect F → Result (Dog F)
  leave_road d new_pos bound_rect = do
    adj_road_index ← search_position_inside_adjacent_roads d new_pos
    ok (enter_road d new_pos bound_rect adj_road_index)

  unfoldable pub change_position : Dog F → ℤ → Result (Dog F)
  change_position d delta_time =
      let new_pos = evaluate_new_position d delta_time in
      let choose = λ (bound_rect : RoadBoundRect F).
        if point_inside bound_rect new_pos
        then ok (record d { position = new_pos })
        else leave_road d new_pos bound_rect in
      get_current_road_bound_rect d d.current_road_index >>= choose

  -- The two points are more than `epsilon` = 0.0001 apart.
  unfoldable pub has_moved : Point F → Point F → Bool
  has_moved start end =
      f.lt (f.literal 1 4) (f.abs (f.sub start.x end.x))
      || f.lt (f.literal 1 4) (f.abs (f.sub start.y end.y))

  -- The `Gatherer` of a movement, with `gathererWidth` = 0.6.
  abbrev pub movement : Point F → Point F → Gatherer F
  movement start end = record { start_pos = start; end_pos = end; width = f.literal 6 1 }

  -- The new dog, and the gatherer if the dog has moved.
  unfoldable pub move : Dog F → ℤ → Result (Dog F × Option (Gatherer F))
  move d delta_time =
      if is_stop d.direction
      then ok (d, none)
      else change_position d delta_time >>= λ d'. ok (
        d',
        if has_moved d.position d'.position then some (movement d.position d'.position) else none,
      )

module _ {F : Type 0} where
  -- The result is whether the loot was taken.
  unfoldable pub add_loot : Dog F → LootInfo F → Dog F × Bool
  add_loot d loot =
      if leb (to_size d.bag_capacity) (length d.gathered_loots)
      then (d, false)
      else (record d { gathered_loots = d.gathered_loots ++ loot ∷ [] }, true)

  -- The loop that adds the scores up.
  unfoldable pub add_scores : GameMap F → ℤ → List (LootInfo F) → Result ℤ
  add_scores m score [] = ok score
  add_scores m score (loot ∷ loots) = do
    kind ← at m.loots loot.type
    add_scores m (int_add score kind.score) loots

  unfoldable pub pass_loot_to_office : Dog F → Result (Dog F)
  pass_loot_to_office d = do
    score ← add_scores d.map d.score d.gathered_loots
    ok (record d { score = score; gathered_loots = [] })

  unfoldable pub get_state : Dog F → DogState F
  get_state d = record {
    pos = d.position;
    dir = string_from_direction d.direction;
    score = d.score;
    idle_time = d.idle_time;
    play_time = d.play_time;
    cur_road = d.current_road_index;
    bag = map (λ loot. record { id = loot.id; type = loot.type }) d.gathered_loots;
  }

  unfoldable pub add_idle_time : Dog F → ℤ → Dog F
  add_idle_time d delta = record d { idle_time = int_add d.idle_time delta }

  unfoldable pub set_idle_time : Dog F → ℤ → Dog F
  set_idle_time d time = record d { idle_time = time }

  unfoldable pub add_play_time : Dog F → ℤ → Dog F
  add_play_time d delta = record d { play_time = int_add d.play_time delta }
