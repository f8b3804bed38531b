-- ===== src/Session/Looting.antt =====
-- src/core/GameSession.cpp: where loot appears, and how a dog gathers it and hands it in.
use dog_game_cpp.Common.{
  ℤ, pos, ◌-ℤ◌, eqb_ℤ, Bool, List, [], ◌∷◌, ◌++◌, map, Option, some, none, ◌==◌, if◌then◌else◌,
  Result, ok, err, ◌>>=◌, or_fail, at, length, find_if, loot_not_specified, road_not_specified,
  undefined,
}
use dog_game_cpp.Float.{Float}
use dog_game_cpp.Utils.{Draw, get_random_int_number, get_random_float_number}
use dog_game_cpp.DataTypes.{Point, LootInfo, Office}
use dog_game_cpp.MapModel.{GameMap, Road, is_horizontal}
use dog_game_cpp.Collision.{Item, ItemType, Gatherer, GatheringEvent, EventSort, find_gather_events}
use dog_game_cpp.Dog.{Dog, add_loot, pass_loot_to_office, ordered}

module _ {F : Type 0} where
  -- Remove the first element that passes the test: `loots.erase(itFind)`.
  unfoldable pub erase_first : (LootInfo F → Bool) → List (LootInfo F) → List (LootInfo F)
  erase_first p [] = []
  erase_first p (l ∷ ls) = if p l then ls else l ∷ erase_first p ls

  abbrev pub has_loot_id : ℤ → LootInfo F → Bool
  has_loot_id id l = eqb_ℤ l.id id

-- One random number of each kind that `generate_loot_info` draws.
pub record LootDraw (F : Type 0) : Type 0 where
  pub type_draw : Draw F
  pub road_draw : Draw F
  pub place_draw : Draw F

module _ {F : Type 0} ⦃f : Float F⦄ where
  unfoldable pub get_loot_position : Draw F → Point F → Point F → Bool → F × F
  get_loot_position r start end horizontal_road =
      let (left, right) = ordered (f.lt end.x start.x) start end in
      let (low, high) = ordered (f.lt end.y start.y) start end in
      if horizontal_road
      then (get_random_float_number r left.x right.x, left.y)
      else (low.x, get_random_float_number r low.y high.y)

  -- The loot on the given road, once its type and its road are drawn.
  unfoldable pub loot_on_road : Draw F → ℤ → ℤ → Road F → LootInfo F
  loot_on_road r id type road =
      let (x, y) = get_loot_position r road.start road.end (is_horizontal road) in
      record { id = id; type = type; x = x; y = y }

  -- The new loot has the id `loot_id`, which the session then raises by one.
  unfoldable pub generate_loot_info : LootDraw F → ℤ → GameMap F → Result (LootInfo F)
  generate_loot_info r loot_id m =
      let num_loots = length m.loots in
      let num_roads = length m.roads in
      if num_loots == 0
      then err loot_not_specified
      else if num_roads == 0
      then err road_not_specified
      else at m.roads (get_random_int_number r.road_draw (pos 0) (pos num_roads -ℤ pos 1))
        >>= λ road.
            let loot_type = get_random_int_number r.type_draw (pos 0) (pos num_loots -ℤ pos 1) in
            ok (loot_on_road r.place_draw loot_id loot_type road)

  -- The items on the map, for the collision detector: every loot, then every office.
  unfoldable pub items_of : List (LootInfo F) → List (Office F) → List (Item F)
  items_of loots offices =
      map
        (λ l. record {
          id = l.id;
          position = record { x = l.x; y = l.y };
          width = f.literal 0 0;
          type = ItemType.loot;
        })
        loots
      ++ map
          (λ o. record {
            id = pos 0;
            position = o.position;
            width = f.literal 5 1;
            type = ItemType.office;
          })
          offices

  -- `item_gath.get_item(ev[i].item_id)` for each event.
  unfoldable pub items_at : List (Item F) → List (GatheringEvent F) → Result (List (Item F))
  items_at items [] = ok []
  items_at items (e ∷ es) = do
    item ← at items (pos e.item_id)
    rest ← items_at items es
    ok (item ∷ rest)

  unfoldable pub get_gathered_items :
      ⦃s : EventSort F⦄
      → Gatherer F
      → List (LootInfo F)
      → Option (GameMap F)
      → Result (List (Item F))
  get_gathered_items gatherer loots m = do
    here ← or_fail m undefined
    let items = items_of loots here.offices
    events ← find_gather_events items (gatherer ∷ [])
    items_at items events

module _ {F : Type 0} where
  -- The dog and the loot on the map, after one item that is no office.
  unfoldable pub pick_up : Dog F → List (LootInfo F) → ℤ → Dog F × List (LootInfo F)
  pick_up dog loots id = elim (find_if (has_loot_id id) loots) [
    | none ↦ (dog, loots)
    | some l ↦
        let (dog', taken) = add_loot dog l in
        (dog', if taken then erase_first (has_loot_id id) loots else loots)
  ]

  unfoldable pub visit : Dog F → List (LootInfo F) → Item F → Result (Dog F × List (LootInfo F))
  visit dog loots item = elim item.type [
    | ItemType.office ↦ pass_loot_to_office dog >>= λ dog'. ok (dog', loots)
    | ItemType.loot ↦ ok (pick_up dog loots item.id)
  ]

  -- The loop over the items.
  unfoldable pub add_loot_to_dog :
      Dog F → List (LootInfo F) → List (Item F) → Result (Dog F × List (LootInfo F))
  add_loot_to_dog dog loots [] = ok (dog, loots)
  add_loot_to_dog dog loots (item ∷ items) =
      visit dog loots item >>= λ r. add_loot_to_dog r.0 r.1 items
