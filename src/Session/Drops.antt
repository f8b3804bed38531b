-- ===== src/Session/Drops.antt =====
-- `generate_loot_info` of src/core/GameSession.cpp: where one new loot lies.
use dog_game_cpp.Common.{
  ℕ, ◌<◌, ◌≡◌, refl, sym, subst, inl, inr, Bool-cases, ℤ, pos, ◌-ℤ◌, false, some, arith, ok, at-pos,
  length, get_elem?, get_elem?_lt, All, All-get_elem?, ◌==◌,
}
use dog_game_cpp.Float.{Float, IsOrdered}
use dog_game_cpp.Utils.{Draw, IsUniform, get_random_int_number}
use dog_game_cpp.DataTypes.{LootInfo, Point, Inside}
use dog_game_cpp.MapModel.{GameMap, Road, is_horizontal}
use dog_game_cpp.Dog.{road_bound_rect, random_point}
use dog_game_cpp.Dog.Bag.{HasType}
use dog_game_cpp.Dog.Placement.{HasNumbers}
use dog_game_cpp.Dog.Start.{index_within, random_point-Inside}
use dog_game_cpp.Session.Looting.{LootDraw, get_loot_position, loot_on_road, generate_loot_info}

module _ {F : Type 0} ⦃f : Float F⦄ where
  abbrev pub AreUniform : LootDraw F → Type 0
  AreUniform r = IsUniform r.type_draw × IsUniform r.road_draw × IsUniform r.place_draw

  -- The loot is of one of the map's types and lies inside the rectangle of one of its roads.
  pub record IsOnMap (m : GameMap F) (l : LootInfo F) : Type 0 where
    pub typed : HasType m l
    pub index : ℕ
    pub road : Road F
    pub has_road : get_elem? m.roads index ≡ some road
    pub inside : Inside (road_bound_rect road) (record { x = l.x; y = l.y })

  -- A map on which loot can be laid.
  pub record CanHoldLoot (m : GameMap F) : Type 0 where
    pub some_type : 0 < length m.loots
    pub some_road : 0 < length m.roads
    pub numbers : All HasNumbers m.roads

  module _ (laws : IsOrdered F) (m : GameMap F) (can : CanHoldLoot m) where
    position-eq-random_point :
        (r : Draw F) (road : Road F)
        → let (x, y) = get_loot_position r road.start road.end (is_horizontal road) in
          ◌≡◌ {A = Point F} (record { x = x; y = y }) (random_point r road)
    unfolding get_loot_position random_point
    position-eq-random_point r road = elim (Bool-cases (is_horizontal road)) [
      | inl flat ↦ rw flat
      | inr steep ↦ rw steep
    ]

    loot_on_road-Inside :
        (r : Draw F) (id type : ℤ) (road : Road F)
        → IsUniform r
        → HasNumbers road
        → let l = loot_on_road r id type road in
          Inside (road_bound_rect road) (record { x = l.x; y = l.y })
    unfolding loot_on_road
    loot_on_road-Inside r id type road u n =
        subst (Inside (road_bound_rect road)) (sym (position-eq-random_point r road))
          (random_point-Inside laws r road u n)

    pub generate_loot_info_lem :
        (r : LootDraw F) (loot_id : ℤ)
        → AreUniform r
        → (l : LootInfo F) × (generate_loot_info r loot_id m ≡ ok l)
          × IsOnMap m l
          × (l.id ≡ loot_id)
    unfolding generate_loot_info loot_on_road
    generate_loot_info_lem r loot_id (ut, ur, up) =
        let (i, e, lt) = index_within r.road_draw (length m.roads) ur can.some_road in
        let (j, g, lt') = index_within r.type_draw (length m.loots) ut can.some_type in
        let (road, h) = get_elem?_lt m.roads i lt in
        let (kind, k) = get_elem?_lt m.loots j lt' in
        let some_types : (length m.loots == 0) ≡ false = ground (arith, can.some_type) in
        let some_roads : (length m.roads == 0) ≡ false = ground (arith, can.some_road) in
        let here =
          at-pos m.roads (get_random_int_number r.road_draw (pos 0) (pos (length m.roads) -ℤ pos 1))
            i e h in
        let type = get_random_int_number r.type_draw (pos 0) (pos (length m.loots) -ℤ pos 1) in
        let l = loot_on_road r.place_draw loot_id type road in
        (
          l,
          rw (some_types, some_roads, here),
          record {
            typed = record { index = j; kind = kind; type_is = g; has_kind = k };
            index = i;
            road = road;
            has_road = h;
            inside =
                loot_on_road-Inside r.place_draw loot_id type road up
                  (All-get_elem? HasNumbers m.roads i can.numbers h);
          },
          refl,
        )
