-- ===== src/Game/Rounds.antt =====
-- `Game::GenerateLoot` and `Game::MoveDogs` of src/core/Game.cpp on all sessions: one tick of the game.
use mathlib.Core.Option.{some-injective}
use dog_game_cpp.Common.{
  lookup, ℕ, suc, ◌≡◌, refl, sym, ap, ◌∙◌, subst, ℤ, ◌+ℤ◌, true, List, [], ◌∷◌, ◌++◌, some, String,
  Result, ok, ◌>>=◌, All, All-append, All-map, map, >>=-eq-ok, ok_injective,
}
use dog_game_cpp.Float.{Float, IsOrdered}
use dog_game_cpp.DataTypes.{LootInfo}
use dog_game_cpp.MapModel.{GameMap}
use dog_game_cpp.Collision.{EventSort}
use dog_game_cpp.Collision.Spec.{IsSort}
use dog_game_cpp.LootGenerator.{Double}
use dog_game_cpp.LootGenerator.Bounds.{IsDouble, raw_chance}
use dog_game_cpp.Dog.Bag.{HasType}
use dog_game_cpp.Session.Data.{GameSession}
use dog_game_cpp.Session.Looting.{LootDraw}
use dog_game_cpp.Session
use dog_game_cpp.Session.{move_players}
use dog_game_cpp.Session.Drops.{AreUniform, IsOnMap, CanHoldLoot}
use dog_game_cpp.Session.Spawn.{generate_loot-Grows}
use dog_game_cpp.Session.Rounds.{AreValid, CanAllMove, IsValid, move_dogs-IsValid}
use dog_game_cpp.Game.Data.{Game}
use dog_game_cpp.Game.{find_map, each_session, generate_loot, move_dogs}

All-zip {ℓ κ μ} :
    {A : Type ℓ} (P : A → Type κ) (Q : A → Type μ) (xs : List A)
    → All P xs
    → All Q xs
    → All (λ x. P x × Q x) xs
All-zip P Q [] p q = tt
All-zip P Q (x ∷ xs) (p, ps) (q, qs) = ((p, q), All-zip P Q xs ps qs)

module _ {F D : Type 0} where
  -- The maps that the sessions are on.
  abbrev pub map_ids : List (GameSession F D) → List String
  map_ids = map (λ s. s.map_id)

module _ {F D : Type 0} ⦃f : Float F⦄ where
  -- A valid session on a map of the storage on which loot can be laid.
  pub record IsRunning (maps : List (String × GameMap F)) (s : GameSession F D) : Type 0 where
    pub valid : IsValid s
    pub stored : lookup s.map_id maps ≡ some valid.here
    pub holds : CanHoldLoot valid.here

  -- In a tick of the session no NaN arises: neither in the chance of new loot nor in the movements.
  pub record CanTick ⦃d : Double D⦄ (delta_time : ℤ) (s : GameSession F D) : Type 0 where
    pub chance_number :
        let v = raw_chance s.loot_generator (s.loot_generator.time_without_loot +ℤ delta_time) in
        d.le v v ≡ true
    pub moves : CanAllMove delta_time s.players

  each_session_total :
      (P Q : GameSession F D → Type 0) (step : ℕ → GameSession F D → Result (GameSession F D))
      (i : ℕ) (ss : List (GameSession F D))
      → ((k : ℕ) (s : GameSession F D)
          → P s
          → (s' : GameSession F D) × (step k s ≡ ok s') × (s'.map_id ≡ s.map_id) × Q s')
      → All P ss
      → (ss' : List (GameSession F D)) × (each_session step i ss ≡ ok ss')
        × (map_ids ss' ≡ map_ids ss)
        × All Q ss'
  unfolding each_session
  each_session_total P Q step i [] total h = ([], refl, refl, tt)
  each_session_total P Q step i (s ∷ ss) total (p, ps) =
      let (s', e, id, q) = total i s p in
      let (ss', e', ids, qs) = each_session_total P Q step (suc i) ss total ps in
      (s' ∷ ss', rw (e, e'), rw (id, ids), (q, qs))

  -- The session with more loot of the map's types.
  IsRunning-more :
      (maps : List (String × GameMap F)) (s s' : GameSession F D) (new : List (LootInfo F))
      (r : IsRunning maps s)
      → (s'.map_id ≡ s.map_id) × (s'.map ≡ s.map) × (s'.players ≡ s.players)
      → s'.loots_info ≡ s.loots_info ++ new
      → All (IsOnMap r.valid.here) new
      → IsRunning maps s'
  IsRunning-more maps s s' new r (same_id, same_map, same_players) loots_are on_map = record {
    valid = record {
      here = r.valid.here;
      map_is = same_map ∙ r.valid.map_is;
      loots_typed = rw loots_are (
          All-append (HasType r.valid.here) s.loots_info new r.valid.loots_typed
            (All-map new (λ l (o : IsOnMap r.valid.here l). o.typed) on_map));
      dogs = subst (AreValid r.valid.here) (sym same_players) r.valid.dogs;
    };
    stored = ap (λ k. lookup k maps) same_id ∙ r.stored;
    holds = r.holds;
  }

  -- What `MoveDogs` changes.
  move_dogs_frame :
      ⦃sort : EventSort F⦄ (s : GameSession F D) (delta_time : ℤ) {s' : GameSession F D}
      → Session.move_dogs s delta_time ≡ ok s'
      → s' ≡ record s { players = s'.players; loots_info = s'.loots_info }
  unfolding Session.move_dogs
  move_dogs_frame s delta_time e =
      let (x, _, q) = >>=-eq-ok (move_players delta_time s.map s.loots_info s.players) _ e in
      subst (λ t. t ≡ record s { players = t.players; loots_info = t.loots_info }) (ok_injective q)
        refl

  module _ ⦃d : Double D⦄ (laws : IsOrdered F) (dlaws : IsDouble D) where
    generate_loot_total :
        {G : Type 0} (draws : ℕ → LootDraw F) (g : Game F D G) (delta_time : ℤ)
        (s : GameSession F D)
        → ((k : ℕ) → AreUniform (draws k))
        → IsRunning g.storage.maps s
        → CanTick delta_time s
        → (s' : GameSession F D) × ((find_map g s.map_id >>= λ m.
              Session.generate_loot draws s delta_time m)
            ≡ ok s')
          × (s'.map_id ≡ s.map_id)
          × (IsRunning g.storage.maps s' × CanAllMove delta_time s'.players)
    generate_loot_total draws g delta_time s u r c =
        let (s', new, e, loots_are, on_map, _, _, rest) =
          generate_loot-Grows laws r.valid.here r.holds dlaws draws s delta_time u
            c.chance_number in
        let same_players = ap (λ (x : GameSession F D). x.players) rest in
        (
          s',
          rw r.stored e,
          ap (λ (x : GameSession F D). x.map_id) rest,
          (
            IsRunning-more g.storage.maps s s' new r
                (
                  ap (λ (x : GameSession F D). x.map_id) rest,
                  ap (λ (x : GameSession F D). x.map) rest,
                  same_players,
                )
                loots_are on_map,
            subst (CanAllMove delta_time) (sym same_players) c.moves,
          ),
        )

    move_dogs_total :
        ⦃sort : EventSort F⦄
        → IsSort sort
        → (maps : List (String × GameMap F)) (s : GameSession F D) (delta_time : ℤ)
        → IsRunning maps s
        → CanAllMove delta_time s.players
        → (s' : GameSession F D) × (Session.move_dogs s delta_time ≡ ok s')
          × (s'.map_id ≡ s.map_id)
          × IsRunning maps s'
    move_dogs_total sorts maps s delta_time r c =
        let (s', e, v, _) = move_dogs-IsValid laws sorts s delta_time r.valid c in
        let frame = move_dogs_frame s delta_time e in
        let same_map : r.valid.here ≡ v.here =
          some-injective _ _
            (sym r.valid.map_is ∙ sym (ap (λ (x : GameSession F D). x.map) frame) ∙ v.map_is) in
        (
          s',
          e,
          ap (λ (x : GameSession F D). x.map_id) frame,
          record {
            valid = v;
            stored =
                ap (λ (x : GameSession F D). lookup x.map_id maps) frame
                ∙ r.stored
                ∙ ap some same_map;
            holds = subst CanHoldLoot same_map r.holds;
          },
        )

    -- If all sessions run on maps of the storage and no NaN arises, with random numbers in their bounds
    -- and a sort that keeps what the standard promises, `GenerateLoot` and then `MoveDogs` return, and
    -- all sessions run on the same maps as before.
    pub tick_total :
        {G : Type 0} ⦃sort : EventSort F⦄
        → IsSort sort
        → (draws : ℕ → ℕ → LootDraw F) (g : Game F D G) (delta_time : ℤ)
        → ((i k : ℕ) → AreUniform (draws i k))
        → All (IsRunning g.storage.maps) g.sessions
        → All (CanTick delta_time) g.sessions
        → (g' : Game F D G) × ((generate_loot draws g delta_time >>= λ x. move_dogs x delta_time)
            ≡ ok g')
          × (g'.storage ≡ g.storage)
          × (map_ids g'.sessions ≡ map_ids g.sessions)
          × All (IsRunning g.storage.maps) g'.sessions
    unfolding generate_loot move_dogs
    tick_total {G} sorts draws g delta_time u r c =
        let maps = g.storage.maps in
        let (ss, e, ids, after) =
          each_session_total (λ s. IsRunning maps s × CanTick delta_time s)
            (λ s. IsRunning maps s × CanAllMove delta_time s.players)
            (λ i s. find_map g s.map_id >>= λ m. Session.generate_loot (draws i) s delta_time m) 0
            g.sessions (λ k s p. generate_loot_total (draws k) g delta_time s (u k) p.0 p.1)
            (All-zip (IsRunning maps) (CanTick delta_time) g.sessions r c) in
        let (ss', e', ids', done) =
          each_session_total (λ s. IsRunning maps s × CanAllMove delta_time s.players)
            (IsRunning maps) (λ i s. Session.move_dogs s delta_time) 0 ss
            (λ k s p. move_dogs_total sorts maps s delta_time p.0 p.1) after in
        (record g { sessions = ss' }, rw (e, e'), refl, ids' ∙ ids, done)
