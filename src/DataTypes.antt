-- ===== src/DataTypes.antt =====
-- src/core/DataTypes.h and src/core/DataTypes.cpp: points, rectangles, loot, the states that are
-- saved, and the letters that stand for directions.
pub mod Directions
use dog_game_cpp.Common.{ℤ, ◌≡◌, Bool, ◌&&◌, List, String, if◌then◌else◌}
use dog_game_cpp.Float.{Float, ◌≼◌}

pub record Point (F : Type 0) : Type 0 where
  pub x : F
  pub y : F

pub record Offset (F : Type 0) : Type 0 where
  pub dx : F
  pub dy : F

pub record LootInfo (F : Type 0) : Type 0 where
  pub id : ℤ
  pub type : ℤ
  pub x : F
  pub y : F

pub data RoadType : Type 0 where
  horizontal vertical : RoadType

pub record Office (F : Type 0) : Type 0 where
  pub id : String
  pub position : Point F
  pub offset : Offset F

pub record Loot (F : Type 0) : Type 0 where
  pub name : String
  pub file : String
  pub type : String
  pub rotation : ℤ
  pub color : String
  pub scale : F
  pub score : ℤ

pub record GatheredLootItem : Type 0 where
  pub id : ℤ
  pub type : ℤ

pub record DogState (F : Type 0) : Type 0 where
  pub pos : Point F
  pub dir : String
  pub score : ℤ
  pub idle_time : ℤ
  pub play_time : ℤ
  pub cur_road : ℤ
  pub bag : List GatheredLootItem

pub record PlayerState (F : Type 0) : Type 0 where
  pub id : ℤ
  pub name : String
  pub token : String
  pub dog : DogState F

pub record PlayerRecordItem : Type 0 where
  pub name : String
  pub score : ℤ
  pub play_time : ℤ

pub record SessionInfo (F : Type 0) : Type 0 where
  pub map_id : String
  pub players : List (PlayerState F)
  pub loots_info_state : List (LootInfo F)

pub record DogSpeed (F : Type 0) : Type 0 where
  pub vx : F
  pub vy : F

pub record RoadBoundRect (F : Type 0) : Type 0 where
  pub min_point : Point F
  pub max_point : Point F

pub data DogDirection : Type 0 where
  north south west east stop : DogDirection

module _ {F : Type 0} ⦃f : Float F⦄ where
  -- `operator ==`: both coordinates within the constant `delta`.
  abbrev pub point_eq : Point F → Point F → Bool
  point_eq p1 p2 =
      f.le (f.abs (f.sub p1.x p2.x)) (f.literal 1 5)
      && f.le (f.abs (f.sub p1.y p2.y)) (f.literal 1 5)

  unfoldable pub point_inside : RoadBoundRect F → Point F → Bool
  point_inside r new_pos =
      f.le r.min_point.x new_pos.x
      && f.le new_pos.x r.max_point.x
      && f.le r.min_point.y new_pos.y
      && f.le new_pos.y r.max_point.y

  -- What `point_inside` tests, as a proposition.
  abbrev pub Inside : RoadBoundRect F → Point F → Type 0
  Inside r p =
      (r.min_point.x ≼ p.x) × (p.x ≼ r.max_point.x) × (r.min_point.y ≼ p.y) × (p.y ≼ r.max_point.y)
