-- ===== src/Session/Spawn.antt =====
-- `GenerateLoot` of src/core/GameSession.cpp: new loot.
use Prim.Native.Nat.{max}
use dog_game_cpp.Common.{
  ℕ, zero, suc, ◌≤◌, ◌≡◌, refl, sym, ap, ◌∙◌, ℤ, pos, int_add, to_int, true, List, [], ◌∷◌, ◌++◌,
  arith, ok, length, length-append, All, ◌+ℤ◌,
}
use mathlib.Core.List.{append_assoc, append-nil}
use dog_game_cpp.Float.{Float, IsOrdered}
use dog_game_cpp.DataTypes.{LootInfo}
use dog_game_cpp.MapModel.{GameMap}
use dog_game_cpp.LootGenerator.{Double, generate}
use dog_game_cpp.LootGenerator.Bounds.{IsDouble, generate_bounds, raw_chance}
use dog_game_cpp.Session.Data.{GameSession}
use dog_game_cpp.Session.Looting.{LootDraw}
use dog_game_cpp.Session.{generate_loots, generate_loot, set_loot_list}
use dog_game_cpp.Session.Drops.{AreUniform, IsOnMap, CanHoldLoot, generate_loot_info_lem}

module _ {F : Type 0} ⦃f : Float F⦄ where
  -- The ids go up by one, as `int` does.
  abbrev pub HasIds : ℤ → List (LootInfo F) → Type 0
  HasIds id [] = Unit
  HasIds id (l ∷ ls) = (l.id ≡ id) × HasIds (int_add id (pos 1)) ls

  -- The loots lie on the map, and have the ids from `id` on.
  pub record AreNew (m : GameMap F) (id : ℤ) (n : ℕ) (new : List (LootInfo F)) : Type 0 where
    pub count : length new ≡ n
    pub on_map : All (IsOnMap m) new
    pub ids : HasIds id new

  module _ (laws : IsOrdered F) (m : GameMap F) (can : CanHoldLoot m) where
    -- The session with more loot, and the next id.
    pub record Grows {D : Type 0} (n : ℕ) (s s' : GameSession F D) : Type 0 where
      pub new : List (LootInfo F)
      pub are_new : AreNew m s.loot_id n new
      pub loots_are : s'.loots_info ≡ s.loots_info ++ new
      pub rest_is : s' ≡ record s { loots_info = s'.loots_info; loot_id = s'.loot_id }

    generate_loots-Grows :
        {D : Type 0} (draws : ℕ → LootDraw F) (n : ℕ) (s : GameSession F D)
        → ((k : ℕ) → AreUniform (draws k))
        → (s' : GameSession F D) × (generate_loots draws n s m ≡ ok s') × Grows n s s'
    unfolding generate_loots
    generate_loots-Grows draws zero s u = (
      s,
      refl,
      record {
        new = [];
        are_new = record { count = refl; on_map = tt; ids = tt };
        loots_are = sym (append-nil s.loots_info);
        rest_is = refl;
      },
    )
    generate_loots-Grows draws (suc n) s u =
        let (l, e, on_map, id_is) = generate_loot_info_lem laws m can (draws n) s.loot_id (u n) in
        let s1 = record s {
          loots_info = s.loots_info ++ l ∷ [];
          loot_id = int_add s.loot_id (pos 1);
        } in
        let (s', e', g) = generate_loots-Grows draws n s1 u in
        (
          s',
          rw (e, e'),
          record {
            new = l ∷ g.new;
            are_new = record {
              count = ap suc g.are_new.count;
              on_map = (on_map, g.are_new.on_map);
              ids = (id_is, g.are_new.ids);
            };
            loots_are = g.loots_are ∙ append_assoc s.loots_info (l ∷ []) g.new;
            rest_is =
                ap
                  (λ (x : GameSession F _). record x {
                    loots_info = s'.loots_info;
                    loot_id = s'.loot_id;
                  })
                  g.rest_is;
          },
        )

    -- On a map with loot types and roads, with random numbers in their bounds and a probability that
    -- is a number, `GenerateLoot` returns. It appends new loot to that on the map and changes nothing
    -- else but the generator and the next id: each new loot has one of the map's types, lies inside
    -- the rectangle of one of its roads and has the next id; and afterwards there is no more loot than
    -- there are players, or than there was.
    pub generate_loot-Grows :
        {D : Type 0} ⦃d : Double D⦄
        → IsDouble D
        → (draws : ℕ → LootDraw F) (s : GameSession F D) (delta_time : ℤ)
        → ((k : ℕ) → AreUniform (draws k))
        → (let v = raw_chance s.loot_generator (s.loot_generator.time_without_loot +ℤ delta_time) in
            d.le v v ≡ true)
        → (s' : GameSession F D) × (new : List (LootInfo F)) × (generate_loot draws s delta_time m
            ≡ ok s')
          × (s'.loots_info ≡ s.loots_info ++ new)
          × All (IsOnMap m) new
          × HasIds s.loot_id new
          × (length s'.loots_info ≤ max (length s.loots_info) (length s.players))
          × (s' ≡ record s {
            loots_info = s'.loots_info;
            loot_id = s'.loot_id;
            loot_generator = s'.loot_generator;
          })
    unfolding generate_loot
    generate_loot-Grows dlaws draws s delta_time u number =
        let asked = generate s.loot_generator delta_time (length s.loots_info) (length s.players) in
        let s1 = record s { loot_generator = asked.1 } in
        let (bound, _) =
          generate_bounds dlaws s.loot_generator delta_time (length s.loots_info) (length s.players)
            number in
        let (s', e, g) = generate_loots-Grows draws asked.0 s1 u in
        (
          s',
          g.new,
          e,
          g.loots_are,
          g.are_new.on_map,
          g.are_new.ids,
          omega (
            arith,
            bound,
            g.are_new.count,
            ap length g.loots_are,
            length-append s.loots_info g.new,
          ),
          g.rest_is
              ∙ sym (
                  ap
                    (λ x. record s {
                      loots_info = s'.loots_info;
                      loot_id = s'.loot_id;
                      loot_generator = x;
                    })
                    (ap (λ (x : GameSession F _). x.loot_generator) g.rest_is)),
        )

    -- `set_loot_list` does not move the next id past the loot that it puts in: whatever loot a new
    -- session is given, the next loot that is generated has the id 0.
    pub set_loot_list_restarts :
        {D : Type 0} (draws : ℕ → LootDraw F) (s : GameSession F D) (loots : List (LootInfo F))
        → ((k : ℕ) → AreUniform (draws k))
        → s.loot_id ≡ pos 0
        → (s' : GameSession F D) × (l : LootInfo F) × (generate_loots draws 1
              (set_loot_list s loots)
              m
            ≡ ok s')
          × (s'.loots_info ≡ loots ++ l ∷ [])
          × (l.id ≡ pos 0)
    unfolding set_loot_list generate_loots int_add to_int ◌+ℤ◌
    set_loot_list_restarts draws s loots u e =
        let next = int_add s.loot_id (pos 0) in
        let (l, q, _, id_is) = generate_loot_info_lem laws m can (draws 0) next (u 0) in
        (
          record s { loots_info = loots ++ l ∷ []; loot_id = int_add next (pos 1) },
          l,
          rw q,
          refl,
          id_is ∙ ap (λ i. int_add i (pos 0)) e,
        )
