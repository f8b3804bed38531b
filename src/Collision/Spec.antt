-- ===== src/Collision/Spec.antt =====
-- The words in which the theorems on src/core/CollisionDetector.cpp are stated.
use mathlib.Core.List.{Permᴰ, Memᴰ}
use dog_game_cpp.Common.{ℕ, ◌+◌, ◌≡◌, true, false, List, [], ◌∷◌, some, ok, get_elem?, All}
use dog_game_cpp.Float.{Float, IsNumber}
use dog_game_cpp.Collision.{
  CollectionResult, Item, Gatherer, GatheringEvent, EventSort, is_collected, try_collect_point,
  is_still,
}

module _ {F : Type 0} ⦃f : Float F⦄ where
  -- No event comes before one that is earlier.
  abbrev pub IsSorted : List (GatheringEvent F) → Type 0
  IsSorted [] = Unit
  IsSorted (e ∷ es) = All (λ later. f.lt later.time e.time ≡ false) es × IsSorted es

  -- What the standard promises of `std::sort` with this comparison, which orders numbers.
  pub record IsSort (s : EventSort F) : Type 0 where
    pub sort-perm : (es : List (GatheringEvent F)) → Permᴰ (s.sort es) es
    pub sort-IsSorted :
        (es : List (GatheringEvent F)) → All (λ e. IsNumber e.time) es → IsSorted (s.sort es)

  -- The coordinates of the movement can be subtracted: no NaN, no difference of infinities.
  abbrev pub IsMeasured : Gatherer F → Type 0
  IsMeasured g =
      IsNumber (f.sub g.start_pos.x g.end_pos.x) × IsNumber (f.sub g.start_pos.y g.end_pos.y)

  abbrev pub event : ℕ → ℕ → CollectionResult F → GatheringEvent F
  event i j r = record {
    item_id = j;
    gatherer_id = i;
    sq_distance = r.sq_distance;
    time = r.proj_ratio;
  }

  -- The gatherer moves and collects the item with the given result.
  pub record Collects (g : Gatherer F) (item : Item F) (r : CollectionResult F) : Type 0 where
    pub moves : is_still g ≡ false
    pub tried : try_collect_point g.start_pos g.end_pos item.position ≡ ok r
    pub collected : is_collected r (f.add g.width item.width) ≡ true

  -- The event tells of a gatherer and of an item that it collects, by their places in the lists,
  -- counted from `i` and `j`.
  pub record IsEvent (i j : ℕ) (gatherers : List (Gatherer F)) (items : List (Item F))
      (e : GatheringEvent F) : Type 0 where
    pub k : ℕ
    pub l : ℕ
    pub g : Gatherer F
    pub item : Item F
    pub result : CollectionResult F
    pub has_gatherer : get_elem? gatherers k ≡ some g
    pub has_item : get_elem? items l ≡ some item
    pub collects : Collects g item result
    pub is_event : e ≡ event (i + k) (j + l) result

  -- Every collected item has its event in the list.
  abbrev pub Covers : ℕ → ℕ → Gatherer F → List (Item F) → List (GatheringEvent F) → Type 0
  Covers i j g items out =
      (l : ℕ) (item : Item F) (r : CollectionResult F)
      → get_elem? items l ≡ some item
      → Collects g item r
      → Memᴰ (event i (j + l) r) out
