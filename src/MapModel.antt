-- ===== src/MapModel.antt =====
-- src/core/MapModel.h and src/core/MapModel.cpp: roads and maps.
pub mod Bounds
pub mod Crossing
use dog_game_cpp.Common.{
  ℤ, pos, Bool, true, false, not, ◌&&◌, ◌||◌, List, [], ◌∷◌, ◌++◌, String, if◌then◌else◌,
}
use dog_game_cpp.Float.{Float}
use dog_game_cpp.DataTypes.{
  Point, RoadType, horizontal, vertical, Office, Loot, RoadBoundRect, point_eq,
}

pub record Road (F : Type 0) : Type 0 where
  pub start : Point F
  pub end : Point F

-- `class Map`. The name of the type is `GameMap`, since `Map` is the word for functions on lists.
pub record GameMap (F : Type 0) : Type 0 where
  pub id : String
  pub name : String
  pub roads : List (Road F)
  pub offices : List (Office F)
  pub loots : List (Loot F)
  pub dog_speed : F
  pub bag_capacity : ℤ

module _ {F : Type 0} ⦃f : Float F⦄ where
  -- The constructor `Road::Road`. Its `throw` is for values outside the enumeration.
  unfoldable pub make_road : RoadType → Point F → F → Road F
  make_road horizontal start end = record { start = start; end = record { x = end; y = start.y } }
  make_road vertical start end = record { start = start; end = record { x = start.x; y = end } }

  abbrev pub is_horizontal : Road F → Bool
  is_horizontal r = f.eq r.start.y r.end.y

  abbrev pub is_vertical : Road F → Bool
  is_vertical r = f.eq r.start.x r.end.x

  -- The constructor `Map::Map`.
  unfoldable pub make_map : String → String → GameMap F
  make_map id name = record {
    id = id;
    name = name;
    roads = [];
    offices = [];
    loots = [];
    dog_speed = f.literal 0 0;
    bag_capacity = pos 1;
  }

  unfoldable pub correct_dog_position_inside_road : Point F → RoadBoundRect F → Point F
  correct_dog_position_inside_road position r =
      let x1 = if f.lt position.x r.min_point.x then r.min_point.x else position.x in
      let x2 = if f.lt r.max_point.x x1 then r.max_point.x else x1 in
      let y1 = if f.lt position.y r.min_point.y then r.min_point.y else position.y in
      let y2 = if f.lt r.max_point.y y1 then r.max_point.y else y1 in record { x = x2; y = y2 }

  unfoldable pub roads_crossed : Road F → Road F → Bool
  roads_crossed road1 road2 =
      if (is_horizontal road1 && is_vertical road2) || (is_vertical road1 && is_horizontal road2)
      then (if is_horizontal road1
          then not (
              (f.lt road2.start.y road1.start.y && f.lt road2.end.y road1.start.y)
              || (f.lt road1.start.y road2.start.y && f.lt road1.start.y road2.end.y))
          else if is_vertical road1
          then not (
              (f.lt road2.start.x road1.start.x && f.lt road2.end.x road1.start.x)
              || (f.lt road1.start.x road2.start.x && f.lt road1.start.x road2.end.x))
          else true)
      else false

  unfoldable pub roads_adjacent : Road F → Road F → Bool
  roads_adjacent road1 road2 =
      if (is_horizontal road1 && is_horizontal road2) || (is_vertical road1 && is_vertical road2)
      then point_eq road1.start road2.start
        || point_eq road1.start road2.end
        || point_eq road1.end road2.start
        || point_eq road1.end road2.end
      else false

  unfoldable pub add_road : GameMap F → Road F → GameMap F
  add_road m road = record m { roads = m.roads ++ road ∷ [] }

  unfoldable pub add_office : GameMap F → Office F → GameMap F
  add_office m office = record m { offices = m.offices ++ office ∷ [] }

  unfoldable pub add_loot : GameMap F → Loot F → GameMap F
  add_loot m loot = record m { loots = m.loots ++ loot ∷ [] }

  unfoldable pub set_dog_speed : GameMap F → F → GameMap F
  set_dog_speed m speed = record m { dog_speed = speed }

  unfoldable pub set_bag_capacity : GameMap F → ℤ → GameMap F
  set_bag_capacity m capacity = record m { bag_capacity = capacity }
