-- ===== src/Dog/Bag.antt =====
-- The bag of a dog and its score: `add_loot` and `pass_loot_to_office` of src/core/Dog.cpp.
use dog_game_cpp.Common.{
  ℕ, ◌≤◌, ◌<◌, ◌≡◌, ◌∙◌, ap, ◌↔◌, ℤ, pos, ◌+ℤ◌, int_add, to_int, to_int-add, to_int-of-Fits,
  to_int-Fits, Fits, int_laws, +ℤ_assoc, true, List, [], ◌∷◌, ◌++◌, some, arith, ok, err, at,
  at-pos, length, length-append, get_elem?, All, if◌then◌else◌,
}
use dog_game_cpp.DataTypes.{LootInfo, Loot}
use dog_game_cpp.MapModel.{GameMap}
use dog_game_cpp.Dog.{Dog, to_size, add_loot, add_scores, pass_loot_to_office}

module _ {F : Type 0} where
  -- The loot has one of the map's types.
  pub record HasType (m : GameMap F) (l : LootInfo F) : Type 0 where
    pub index : ℕ
    pub kind : Loot F
    pub type_is : l.type ≡ pos index
    pub has_kind : get_elem? m.loots index ≡ some kind

  unfoldable pub score_of : GameMap F → LootInfo F → ℤ
  score_of m l = elim (at m.loots l.type) [ ok kind ↦ kind.score | err _ ↦ pos 0 ]

  -- The sum of the scores, as an integer without bounds.
  unfoldable pub total_score : GameMap F → List (LootInfo F) → ℤ
  total_score m [] = pos 0
  total_score m (l ∷ ls) = score_of m l +ℤ total_score m ls

  abbrev pub BagFits : Dog F → Type 0
  BagFits d = length d.gathered_loots ≤ to_size d.bag_capacity

module _ {F : Type 0} where
  at-HasType : (m : GameMap F) (l : LootInfo F) (v : HasType m l) → at m.loots l.type ≡ ok v.kind
  at-HasType m l v = at-pos m.loots l.type v.index v.type_is v.has_kind

  score_of-HasType :
      (m : GameMap F) (l : LootInfo F) (v : HasType m l) → score_of m l ≡ v.kind.score
  unfolding score_of
  score_of-HasType m l v = rw (at-HasType m l v, score_of)

  add_scores-total_score :
      (m : GameMap F) (score : ℤ) (ls : List (LootInfo F))
      → Fits score
      → All (HasType m) ls
      → add_scores m score ls ≡ ok (to_int (score +ℤ total_score m ls))
  unfolding add_scores total_score int_add
  add_scores-total_score m score [] h t =
      let e : score +ℤ pos 0 ≡ score = omega int_laws in rw e (rw (to_int-of-Fits score h))
  add_scores-total_score m score (l ∷ ls) h (v, vs) =
      rw (at-HasType m l v, score_of-HasType m l v)
        (add_scores-total_score m (int_add score v.kind.score) ls (to_int-Fits _) vs
          ∙ ap ok (
              to_int-add (score +ℤ v.kind.score) (total_score m ls)
              ∙ ap to_int (+ℤ_assoc score v.kind.score (total_score m ls))))

  -- If the types of the gathered loot are types of the map, a visit to an office empties the bag and
  -- adds the scores of all its loot, wrapped once to the range of an `int`; nothing else changes.
  pub pass_loot_to_office_lem :
      (d : Dog F)
      → Fits d.score
      → All (HasType d.map) d.gathered_loots
      → pass_loot_to_office d
        ≡ ok (record d {
          score = to_int (d.score +ℤ total_score d.map d.gathered_loots);
          gathered_loots = [];
        })
  unfolding pass_loot_to_office
  pass_loot_to_office_lem d h t = rw (add_scores-total_score d.map d.score d.gathered_loots h t)

  -- A loot is taken exactly when the bag has room, and then stands last in it; the bag stays within
  -- its capacity.
  pub add_loot-BagFits :
      (d : Dog F) (l : LootInfo F)
      → BagFits d
      → BagFits (add_loot d l).0
        × (((add_loot d l).1 ≡ true) ↔ (length d.gathered_loots < to_size d.bag_capacity))
        × ((add_loot d l).0.gathered_loots
            ≡ (if (add_loot d l).1 then d.gathered_loots ++ l ∷ [] else d.gathered_loots))
  unfolding add_loot
  add_loot-BagFits d l h = ground (arith, length-append d.gathered_loots (l ∷ []))
