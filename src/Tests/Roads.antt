-- ===== src/Tests/Roads.antt =====
-- The theorems on points, roads and dogs at concrete values.
use dog_game_cpp.Common.{
  ltb, ℕ, ◌≡◌, refl, ◌↔◌, pos, ◌+ℤ◌, ◌*ℤ◌, ◌-ℤ◌, to_int, true, false, List, [], ◌∷◌, All, arith, ok,
  if◌then◌else◌,
}
use dog_game_cpp.Float.Fixed.{Fixed, fixed_float, Fixed-IsOrdered}
use dog_game_cpp.DataTypes.{horizontal, vertical}
use dog_game_cpp.MapModel.{make_road, roads_crossed}
use dog_game_cpp.MapModel.Crossing.{Between, roads_crossed_iff}
use dog_game_cpp.LootGenerator.{LootGenerator, generate}
use dog_game_cpp.LootGenerator.Bounds.{generate_bounds}
use dog_game_cpp.Dog.{
  Dog, make_dog, change_position, evaluate_new_position, spawn_dog_in_map, pass_loot_to_office,
}
use dog_game_cpp.Dog.Roads.{find_adjacent_roads}
use dog_game_cpp.Dog.Table.{holds}
use dog_game_cpp.Dog.Adjacency.{linked_at, find_adjacent_roads_lem}
use dog_game_cpp.Dog.Placement.{IsPlaced, change_position-IsPlaced}
use dog_game_cpp.Dog.Start.{spawn_dog_in_map-IsPlaced}
use dog_game_cpp.Dog.Bag.{total_score, pass_loot_to_office_lem}
use dog_game_cpp.Collision.{Item, ItemType, Gatherer, GatheringEvent, find_gather_events}
use dog_game_cpp.Collision.Spec.{IsEvent, IsSorted}
use dog_game_cpp.Collision.Events.{CoversAll, find_gather_events_lem}
use dog_game_cpp.Tests.Whole.{whole_double, whole_IsDouble, lowest, lowest-IsUniform}
use dog_game_cpp.Tests.Sorting.{sort_events, sort_events-IsSort}
use dog_game_cpp.Tests.Values.{
  whole, point, town, runner, runner-HasCurrentRoad, lost_key, lost_key-HasType,
}
use Prim.Native.Nat.{◌≤◌, max, ◌+◌}

-- The second road stands far to the right of the first.
crossed_from_afar :
    (roads_crossed
        (make_road horizontal (point 0 2) (whole 3))
        (make_road vertical (point 90 0) (whole 5))
      ≡ true)
    ↔ Between (whole 0) (whole 5) (whole 2)
crossed_from_afar =
    roads_crossed_iff Fixed-IsOrdered (point 0 2) (point 90 0) (whole 3) (whole 5) refl refl refl
      refl

meeting_roads :
    (holds (find_adjacent_roads town.roads) 0 1 ≡ linked_at town.roads 0 1)
    × (holds (find_adjacent_roads town.roads) 1 0 ≡ linked_at town.roads 0 1)
    × (holds (find_adjacent_roads town.roads) 0 0 ≡ false)
meeting_roads = find_adjacent_roads_lem town.roads 0 1 (omega arith)

run_for_a_second : (d' : Dog Fixed) × (change_position runner (pos 1000) ≡ ok d') × IsPlaced d'
unfolding evaluate_new_position make_dog ◌*ℤ◌ ◌+ℤ◌
run_for_a_second =
    change_position-IsPlaced Fixed-IsOrdered runner (pos 1000) runner-HasCurrentRoad refl refl

spawned_at_random :
    (d' : Dog Fixed) × (spawn_dog_in_map true lowest lowest runner ≡ ok d') × IsPlaced d'
unfolding make_dog
spawned_at_random =
    spawn_dog_in_map-IsPlaced Fixed-IsOrdered true lowest lowest runner lowest-IsUniform
      lowest-IsUniform (runner-HasCurrentRoad, omega arith)

key_handed_in :
    pass_loot_to_office runner
    ≡ ok (record runner {
      score = to_int (pos 5 +ℤ total_score town (lost_key ∷ []));
      gathered_loots = [];
    })
unfolding make_dog
key_handed_in = pass_loot_to_office_lem runner (omega arith, omega arith) (lost_key-HasType, tt)

abbrev half_time : LootGenerator ℕ
half_time = record { base_interval = pos 5000; probability = 1; time_without_loot = pos 4000 }

two_more_loots :
    let (n, g') = generate half_time (pos 1000) 1 3 in
    (1 + n ≤ max 1 3) × (g'.time_without_loot ≡ (if ltb 0 n then pos 0 else pos 4000 +ℤ pos 1000))
unfolding ◌+ℤ◌
two_more_loots = generate_bounds whole_IsDouble half_time (pos 1000) 1 3 refl

abbrev passer : Gatherer Fixed
passer = record { start_pos = point 0 0; end_pos = point 10 0; width = whole 1 }

abbrev two_items : List (Item Fixed)
two_items =
    record { id = pos 3; position = point 8 0; width = whole 0; type = ItemType.loot }
    ∷ record { id = pos 4; position = point 2 0; width = whole 0; type = ItemType.office }
    ∷ []

two_items_gathered :
    (out : List (GatheringEvent Fixed)) × (find_gather_events ⦃s = record { sort = sort_events }⦄
        two_items
        (passer ∷ [])
      ≡ ok out)
    × All (IsEvent 0 0 (passer ∷ []) two_items) out
    × CoversAll 0 (passer ∷ []) two_items out
    × IsSorted out
unfolding ◌-ℤ◌
two_items_gathered =
    find_gather_events_lem Fixed-IsOrdered (record { sort = sort_events }) (passer ∷ []) two_items
      (sort_events-IsSort Fixed-IsOrdered) ((refl, refl), tt)
