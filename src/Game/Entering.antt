-- ===== src/Game/Entering.antt =====
-- `Game::add_player` of src/core/Game.cpp and the validity of the sessions.
use mathlib.Core.Option.{some-injective}
use dog_game_cpp.Common.{
  lookup, ℤ, ◌≡◌, refl, sym, ap, ◌∙◌, subst, inl, inr, Bool, false, List, [], ◌∷◌, ◌++◌, some,
  String, str_eq, eq_iff, eq_refl, any_of, true, arith, ok, ok_injective, find_if, All, All-append,
  Bool-cases, Option-cases,
}
use dog_game_cpp.Float.{Float}
use dog_game_cpp.LootGenerator.{Double}
use dog_game_cpp.MapModel.{GameMap}
use dog_game_cpp.Dog.{make_dog}
use dog_game_cpp.Dog.Bag.{HasType}
use dog_game_cpp.Dog.Start.{make_dog-HasCurrentRoad}
use dog_game_cpp.Session.Data.{GameSession, make_session, has_name}
use dog_game_cpp.Session
use dog_game_cpp.Session.{make_player}
use dog_game_cpp.Session.Players.{find_if-none}
use dog_game_cpp.Session.Moves.{IsValidDog}
use dog_game_cpp.Session.Rounds.{AreValid}
use dog_game_cpp.Session.Drops.{CanHoldLoot}
use dog_game_cpp.Game.Data.{Game, TokenGenerator}
use dog_game_cpp.Game.{is_on_map, find_session, replace_session, open_session, add_player}
use dog_game_cpp.Game.Joining.{MapsDistinct, add_player_joins}
use dog_game_cpp.Game.Rounds.{IsRunning}

module _ {F : Type 0} ⦃f : Float F⦄ where
  make_dog-IsValidDog :
      (m : GameMap F) (capacity : ℤ) → CanHoldLoot m → IsValidDog m (make_dog m capacity)
  unfolding make_dog
  make_dog-IsValidDog m capacity c = record {
    same_map = refl;
    score_fits = (omega arith, omega arith);
    types = tt;
    on_road = make_dog-HasCurrentRoad m capacity c.some_road c.numbers;
    bag_fits = omega arith;
  }

module _ {F D : Type 0} ⦃f : Float F⦄ where
  -- The loot and the dogs of the session are valid on the map that it is to be played on.
  record IsOpen (m : GameMap F) (id : String) (s : GameSession F D) : Type 0 where
    on_map : s.map_id ≡ id
    loots_typed : All (HasType m) s.loots_info
    dogs : AreValid m s.players

  add_player-IsRunning :
      (maps : List (String × GameMap F)) (id : String) (m : GameMap F) (s : GameSession F D)
      (name token : String) (spawn : Bool) (capacity : ℤ)
      → lookup id maps ≡ some m
      → CanHoldLoot m
      → IsOpen m id s
      → IsRunning maps (Session.add_player s name m token spawn capacity).0
  unfolding Session.add_player make_player
  add_player-IsRunning maps id m s name token spawn capacity e c o =
      let stored = ap (λ k. lookup k maps) o.on_map ∙ e in
      elim (Option-cases (find_if (has_name name) s.players)) [
        | inl n ↦
            rw (n, Session.add_player)
              (record {
                valid = record {
                  here = m;
                  map_is = refl;
                  loots_typed = o.loots_typed;
                  dogs =
                      All-append (λ p. IsValidDog m p.dog) s.players
                        (make_player s name m token capacity ∷ []) o.dogs
                        (make_dog-IsValidDog m capacity c, tt);
                };
                stored = stored;
                holds = c;
              })
        | inr (p, k) ↦
            rw (k, Session.add_player)
              (record {
                valid = record {
                  here = m;
                  map_is = refl;
                  loots_typed = o.loots_typed;
                  dogs = o.dogs;
                };
                stored = stored;
                holds = c;
              })
      ]

  IsOpen-of-IsRunning :
      (maps : List (String × GameMap F)) (id : String) (m : GameMap F) (s : GameSession F D)
      → lookup id maps ≡ some m
      → s.map_id ≡ id
      → IsRunning maps s
      → IsOpen m id s
  IsOpen-of-IsRunning maps id m s e on_map r =
      let same : r.valid.here ≡ m =
        some-injective _ _ (sym r.stored ∙ ap (λ k. lookup k maps) on_map ∙ e) in
      record {
        on_map = on_map;
        loots_typed = subst (λ n. All (HasType n) s.loots_info) same r.valid.loots_typed;
        dogs = subst (λ n. AreValid n s.players) same r.valid.dogs;
      }

  All-replace_session :
      (P : GameSession F D → Type 0) (id : String) (s' : GameSession F D)
      (ss : List (GameSession F D))
      → P s'
      → All P ss
      → All P (replace_session id s' ss)
  unfolding replace_session
  All-replace_session P id s' [] p ps = tt
  All-replace_session P id s' (s ∷ ss) p (q, qs) = elim (Bool-cases (is_on_map id s)) [
    | inl hit ↦ rw hit (p, qs)
    | inr miss ↦ rw miss (q, All-replace_session P id s' ss p qs)
  ]

  pub found_session :
      (P : GameSession F D → Type 0) (id : String) (ss : List (GameSession F D))
      {s : GameSession F D}
      → find_if (is_on_map id) ss ≡ some s
      → All P ss
      → (s.map_id ≡ id) × P s
  found_session P id [] e ps = cc
  found_session P id (x ∷ ss) {s} e (p, ps) = elim (Bool-cases (is_on_map id x)) [
    | inl hit ↦
        let same : x ≡ s = ground (arith, e, hit) in
        (
          ap (λ (y : GameSession F D). y.map_id) (sym same) ∙ (eq_iff x.map_id id).0 hit,
          subst P same p,
        )
    | inr miss ↦ found_session P id ss {s = s} (ground (arith, e, miss)) ps
  ]

  -- A new session, which stands last, is replaced.
  All-replace_last :
      (P : GameSession F D → Type 0) (id : String) (s s' : GameSession F D)
      (ss : List (GameSession F D))
      → any_of (is_on_map id) ss ≡ false
      → is_on_map id s ≡ true
      → P s'
      → All P ss
      → All P (replace_session id s' (ss ++ s ∷ []))
  unfolding replace_session
  All-replace_last P id s s' [] e k p ps = rw k (p, tt)
  All-replace_last P id s s' (x ∷ ss) e k p (q, qs) =
      let miss : is_on_map id x ≡ false = ground (arith, e) in
      rw miss (q, All-replace_last P id s s' ss (ground (arith, e)) k p qs)

module _ {F D G : Type 0} ⦃f : Float F⦄ ⦃d : Double D⦄ (to_double : F → D) where
  open_session-IsOpen :
      (g : Game F D G) (id : String) (m : GameMap F)
      → lookup id g.storage.maps ≡ some m
      → All (IsRunning g.storage.maps) g.sessions
      → IsOpen m id (open_session to_double g id).0
  unfolding open_session find_session make_session
  open_session-IsOpen g id m e r = elim (Option-cases (find_if (is_on_map id) g.sessions)) [
    | inl n ↦ rw (n, open_session) (record { on_map = refl; loots_typed = tt; dogs = tt })
    | inr (s, k) ↦
        let (on_map, running) = found_session (IsRunning g.storage.maps) id g.sessions k r in
        rw (k, open_session) (IsOpen-of-IsRunning g.storage.maps id m s e on_map running)
  ]

  -- What holds of all sessions and of the new value of the one that is opened.
  pub replaced :
      (P : GameSession F D → Type 0) (g : Game F D G) (id : String) (s' : GameSession F D)
      → All P g.sessions
      → P s'
      → All P (replace_session id s' (open_session to_double g id).1)
  unfolding open_session find_session make_session
  replaced P g id s' r k = elim (Option-cases (find_if (is_on_map id) g.sessions)) [
    | inl n ↦
        let s = make_session to_double id g.loot_period g.loot_probability in
        rw (n, open_session)
          (All-replace_last P id s s' g.sessions (find_if-none (is_on_map id) g.sessions n)
            (eq_refl id) k r)
    | inr (s, e) ↦ rw (e, open_session) (All-replace_session P id s' g.sessions k r)
  ]

  -- What `add_player` does where it returns: the storage stays, and if the sessions ran on maps of the
  -- storage that can hold loot, and no two on the same one, that holds afterwards too.
  pub add_player_runs :
      ⦃t : TokenGenerator G⦄ (g : Game F D G) (id name : String) {g' : Game F D G}
      {who : String × ℤ}
      → ((k : String) (m : GameMap F) → lookup k g.storage.maps ≡ some m → CanHoldLoot m)
      → All (IsRunning g.storage.maps) g.sessions
      → MapsDistinct g.sessions
      → add_player to_double g id name ≡ ok (g', who)
      → (g'.storage ≡ g.storage)
        × All (IsRunning g.storage.maps) g'.sessions
        × MapsDistinct g'.sessions
  unfolding add_player
  add_player_runs ⦃t⦄ g id name {g'} {who} c r apart e = elim (Bool-cases (str_eq name "")) [
    | inl empty ↦ let q = rw empty at e in cc
    | inr named ↦ elim (Option-cases (lookup id g.storage.maps)) [
      | inl n ↦ let q = rw (named, n) at e in cc
      | inr (m, k) ↦
          let q = rw (named, k) at e in
          let (session, sessions) = open_session to_double g id in
          let (token, generator) = t.get_token g.generator in
          let here =
            add_player-IsRunning g.storage.maps id m session name token g.spawn_in_random_points
              g.storage.default_bag_capacity k (c id m k) (open_session-IsOpen g id m k r) in
          let (_, _, _, e', _, _, distinct) =
            add_player_joins to_double g id name m named k apart in
          let (same, running) =
            subst (λ x. (x.0.storage ≡ g.storage) × All (IsRunning g.storage.maps) x.0.sessions)
              (ok_injective q) (refl, replaced (IsRunning g.storage.maps) g id _ r here) in
          (
            same,
            running,
            subst (λ (x : Game F D G × (String × ℤ)). MapsDistinct x.0.sessions)
                (ok_injective (sym e' ∙ e)) distinct,
          )
    ]
  ]
