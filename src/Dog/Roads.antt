-- ===== src/Dog/Roads.antt =====
-- src/core/Dog.cpp: the table of neighbouring roads that `Dog::find_adjacent_roads` fills.
use dog_game_cpp.Common.{
  ℕ, suc, Bool, true, false, List, [], ◌∷◌, if◌then◌else◌, ltb, ◌==◌, length, get_or, set,
  replicate, any_of,
}
use dog_game_cpp.Float.{Float}
use dog_game_cpp.MapModel.{Road, roads_adjacent, roads_crossed}

pub data RoadMutualPositionType : Type 0 where
  parallel adjacent crossed : RoadMutualPositionType

-- A `std::set<int>` of indices, ascending.
unfoldable pub set_insert : ℕ → List ℕ → List ℕ
set_insert v [] = v ∷ []
set_insert v (x ∷ xs) =
    if ltb v x then v ∷ x ∷ xs else if v == x then x ∷ xs else x ∷ set_insert v xs

abbrev pub contains : List ℕ → ℕ → Bool
contains xs v = any_of (λ x. x == v) xs

-- `adjacent_roads_[k].insert(v)`
unfoldable pub insert_at : ℕ → ℕ → List (List ℕ) → List (List ℕ)
insert_at k v table = set table k (set_insert v (get_or table k []))

module _ {F : Type 0} ⦃f : Float F⦄ where
  unfoldable pub mutual_position : Road F → Road F → RoadMutualPositionType
  mutual_position r1 r2 =
      if roads_adjacent r1 r2 then adjacent else if roads_crossed r1 r2 then crossed else parallel

  unfoldable pub are_linked : Road F → Road F → Bool
  are_linked r1 r2 = elim (mutual_position r1 r2) [ parallel ↦ false | _ ↦ true ]

  -- The body of the inner loop, for `roads_[i]` and `roads_[j]`.
  unfoldable pub link : ℕ → Road F → ℕ → Road F → List (List ℕ) → List (List ℕ)
  link i ri j rj table = if are_linked ri rj then insert_at j i (insert_at i j table) else table

  -- The inner loop, over the roads from `j` on.
  unfoldable pub link_row : ℕ → Road F → ℕ → List (Road F) → List (List ℕ) → List (List ℕ)
  link_row i ri j [] table = table
  link_row i ri j (rj ∷ rs) table = link_row i ri (suc j) rs (link i ri j rj table)

  -- The outer loop, over the roads from `i` on.
  unfoldable pub link_rows : ℕ → List (Road F) → List (List ℕ) → List (List ℕ)
  link_rows i [] table = table
  link_rows i (ri ∷ rs) table = link_rows (suc i) rs (link_row i ri (suc i) rs table)

  unfoldable pub find_adjacent_roads : List (Road F) → List (List ℕ)
  find_adjacent_roads roads = link_rows 0 roads (replicate (length roads) [])
