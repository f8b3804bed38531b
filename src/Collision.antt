-- ===== src/Collision.antt =====
-- src/core/CollisionDetector.h and src/core/CollisionDetector.cpp: which items a moving dog picks
-- up.
pub mod Spec
pub mod Loops
pub mod Events
use dog_game_cpp.Common.{
  ℕ, suc, ℤ, pos, Bool, not, ◌&&◌, ◌||◌, List, [], ◌∷◌, ◌++◌, if◌then◌else◌, Result, ok, err, ◌>>=◌,
  assertion_failed,
}
use dog_game_cpp.Float.{Float}
use dog_game_cpp.DataTypes.{Point}

pub data ItemType : Type 0 where
  loot office : ItemType

pub record CollectionResult (F : Type 0) : Type 0 where
  pub sq_distance : F
  pub proj_ratio : F

pub record Item (F : Type 0) : Type 0 where
  pub id : ℤ
  pub position : Point F
  pub width : F
  pub type : ItemType

pub record Gatherer (F : Type 0) : Type 0 where
  pub start_pos : Point F
  pub end_pos : Point F
  pub width : F

pub record GatheringEvent (F : Type 0) : Type 0 where
  pub item_id : ℕ
  pub gatherer_id : ℕ
  pub sq_distance : F
  pub time : F

-- `std::sort` of events by `time`. The order of events with equal times is not specified, so the
-- function is a parameter; `IsSort` in Events states what the standard promises of it.
pub record EventSort (F : Type 0) : Type 0 where
  pub sort : List (GatheringEvent F) → List (GatheringEvent F)

module _ {F : Type 0} ⦃f : Float F⦄ where
  unfoldable pub is_collected : CollectionResult F → F → Bool
  is_collected r collect_radius =
      f.le (f.literal 0 0) r.proj_ratio
      && f.le r.proj_ratio (f.literal 1 0)
      && f.le r.sq_distance (f.mul collect_radius collect_radius)

  -- The arithmetic of `TryCollectPoint`.
  unfoldable pub measure : Point F → Point F → Point F → CollectionResult F
  measure a b c =
      let u_x = f.sub c.x a.x in
      let u_y = f.sub c.y a.y in
      let v_x = f.sub b.x a.x in
      let v_y = f.sub b.y a.y in
      let u_dot_v = f.add (f.mul u_x v_x) (f.mul u_y v_y) in
      let u_len2 = f.add (f.mul u_x u_x) (f.mul u_y u_y) in
      let v_len2 = f.add (f.mul v_x v_x) (f.mul v_y v_y) in
      record {
        sq_distance = f.sub u_len2 (f.div (f.mul u_dot_v u_dot_v) v_len2);
        proj_ratio = f.div u_dot_v v_len2;
      }

  -- `err assertion_failed` is the failed `assert` on a movement of length zero.
  unfoldable pub try_collect_point : Point F → Point F → Point F → Result (CollectionResult F)
  try_collect_point a b c =
      if not (f.eq b.x a.x) || not (f.eq b.y a.y) then ok (measure a b c) else err assertion_failed

  -- The test that skips a gatherer: both coordinates move by at most 1e-10.
  unfoldable pub is_still : Gatherer F → Bool
  is_still g =
      f.le (f.abs (f.sub g.start_pos.x g.end_pos.x)) (f.literal 1 10)
      && f.le (f.abs (f.sub g.start_pos.y g.end_pos.y)) (f.literal 1 10)

  -- The inner loop, over the items from `j` on.
  unfoldable pub collect_items :
      ℕ → Gatherer F → ℕ → List (Item F) → Result (List (GatheringEvent F))
  collect_items i g j [] = ok []
  collect_items i g j (item ∷ items) = do
    result ← try_collect_point g.start_pos g.end_pos item.position
    rest ← collect_items i g (suc j) items
    let event : GatheringEvent F = record {
      item_id = j;
      gatherer_id = i;
      sq_distance = result.sq_distance;
      time = result.proj_ratio;
    }
    ok (if is_collected result (f.add g.width item.width) then event ∷ rest else rest)

  -- The outer loop, over the gatherers from `i` on.
  unfoldable pub collect : ℕ → List (Gatherer F) → List (Item F) → Result (List (GatheringEvent F))
  collect i [] items = ok []
  collect i (g ∷ gs) items =
      let rest = collect (suc i) gs items in
      if is_still g
      then rest
      else do here ← collect_items i g 0 items; more ← rest; ok (here ++ more)

  unfoldable pub find_gather_events :
      ⦃s : EventSort F⦄ → List (Item F) → List (Gatherer F) → Result (List (GatheringEvent F))
  find_gather_events ⦃s⦄ items gatherers = do events ← collect 0 gatherers items; ok (s.sort events)
