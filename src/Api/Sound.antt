-- ===== src/Api/Sound.antt =====
-- The games that the steps of Play lead to.
use dog_game_cpp.Common.{
  lookup, ◌≡◌, refl, sym, ap, ◌∙◌, subst, inl, inr, ℕ, ℤ, Bool, List, [], ◌∷◌, some, String, ok,
  ok_injective, ◌>>=◌, any_of, All, Bool-cases,
}
use dog_game_cpp.Float.{Float, IsOrdered}
use dog_game_cpp.DataTypes.{DogDirection}
use dog_game_cpp.MapModel.{GameMap}
use dog_game_cpp.Collision.{EventSort}
use dog_game_cpp.Collision.Spec.{IsSort}
use dog_game_cpp.LootGenerator.{Double}
use dog_game_cpp.LootGenerator.Bounds.{IsDouble}
use dog_game_cpp.Dog.{set_speed}
use dog_game_cpp.Session.Data.{Player, GameSession, has_token as has_player_token}
use dog_game_cpp.Session.Looting.{LootDraw}
use dog_game_cpp.Session.Moves.{IsValidDog}
use dog_game_cpp.Session.Drops.{AreUniform, CanHoldLoot}
use dog_game_cpp.Game.Data.{Game, TokenGenerator}
use dog_game_cpp.Game.{is_on_map, has_token, generate_loot, move_dogs}
use dog_game_cpp.Game.Joining.{MapsDistinct}
use dog_game_cpp.Game.Rounds.{IsRunning, CanTick, map_ids, tick_total}
use dog_game_cpp.Game.Entering.{add_player_runs}
use dog_game_cpp.Api.{update_first, steer}
use dog_game_cpp.Api.Play.{stay, join, turn, round, Plays, start, next}

All-update_first {ℓ κ} :
    {A : Type ℓ} (P : A → Type κ) (p : A → Bool) (change : A → A) (xs : List A)
    → ((x : A) → P x → P (change x))
    → All P xs
    → All P (update_first p change xs)
unfolding update_first
All-update_first P p change [] k h = tt
All-update_first P p change (x ∷ xs) k (h, hs) = elim (Bool-cases (p x)) [
  | inl hit ↦ rw hit (k x h, hs)
  | inr miss ↦ rw miss (h, All-update_first P p change xs k hs)
]

module _ {F : Type 0} ⦃f : Float F⦄ where
  set_speed-IsValidDog :
      (m : GameMap F) (p : Player F) (dir : DogDirection) (speed : F)
      → IsValidDog m p.dog
      → IsValidDog m (set_speed p.dog dir speed)
  unfolding set_speed
  set_speed-IsValidDog m p dir speed v = record {
    same_map = v.same_map;
    score_fits = v.score_fits;
    types = v.types;
    on_road = record {
      index = v.on_road.index;
      road = v.on_road.road;
      is_current = v.on_road.is_current;
      has_road = v.on_road.has_road;
      closed = v.on_road.closed;
      numbers = v.on_road.numbers;
    };
    bag_fits = v.bag_fits;
  }

module _ {F D : Type 0} ⦃f : Float F⦄ where
  turned-IsRunning :
      (maps : List (String × GameMap F)) (token : String) (dir : DogDirection) (speed : F)
      (s : GameSession F D)
      → IsRunning maps s
      → IsRunning maps (record s {
        players =
            update_first
              (has_player_token token)
              (λ (p : Player F). record p { dog = set_speed p.dog dir speed })
              s.players;
      })
  turned-IsRunning maps token dir speed s r = record {
    valid = record {
      here = r.valid.here;
      map_is = r.valid.map_is;
      loots_typed = r.valid.loots_typed;
      dogs =
          All-update_first (λ p. IsValidDog r.valid.here p.dog) (has_player_token token)
            (λ (p : Player F). record p { dog = set_speed p.dog dir speed }) s.players
            (λ p v. set_speed-IsValidDog r.valid.here p dir speed v) r.valid.dogs;
    };
    stored = r.stored;
    holds = r.holds;
  }

module _ {F D : Type 0} where
  any_of-map_ids :
      (id : String) (ss ss' : List (GameSession F D))
      → map_ids ss' ≡ map_ids ss
      → any_of (is_on_map id) ss' ≡ any_of (is_on_map id) ss
  any_of-map_ids id [] [] e = refl
  any_of-map_ids id [] (s' ∷ ss') e = cc
  any_of-map_ids id (s ∷ ss) [] e = cc
  any_of-map_ids id (s ∷ ss) (s' ∷ ss') e =
      let same : s'.map_id ≡ s.map_id = cc in
      let rest : map_ids ss' ≡ map_ids ss = cc in rw (same, any_of-map_ids id ss ss' rest) refl

  -- Whether the maps are distinct depends on nothing else of the sessions.
  MapsDistinct-map_ids :
      (ss ss' : List (GameSession F D))
      → map_ids ss' ≡ map_ids ss
      → MapsDistinct ss
      → MapsDistinct ss'
  MapsDistinct-map_ids [] [] e d = tt
  MapsDistinct-map_ids [] (s' ∷ ss') e d = cc
  MapsDistinct-map_ids (s ∷ ss) [] e d = cc
  MapsDistinct-map_ids (s ∷ ss) (s' ∷ ss') e (d, ds) =
      let same : s'.map_id ≡ s.map_id = cc in
      let rest : map_ids ss' ≡ map_ids ss = cc in
      (rw same (any_of-map_ids s.map_id ss ss' rest ∙ d), MapsDistinct-map_ids ss ss' rest ds)

  map_ids-update_first :
      (p : GameSession F D → Bool) (change : List (Player F) → List (Player F))
      (ss : List (GameSession F D))
      → map_ids (update_first p (λ s. record s { players = change s.players }) ss) ≡ map_ids ss
  unfolding update_first
  map_ids-update_first p change [] = refl
  map_ids-update_first p change (s ∷ ss) = elim (Bool-cases (p s)) [
    | inl hit ↦ rw hit refl
    | inr miss ↦ rw (miss, map_ids-update_first p change ss) refl
  ]

module _ {F D G : Type 0} ⦃f : Float F⦄ where
  -- Every session runs on its own map of the storage, and on every map of the storage loot can be laid.
  pub record IsSound (g : Game F D G) : Type 0 where
    pub running : All (IsRunning g.storage.maps) g.sessions
    pub distinct : MapsDistinct g.sessions
    pub holds : (id : String) (m : GameMap F) → lookup id g.storage.maps ≡ some m → CanHoldLoot m

  IsSound-steer :
      (g : Game F D G) (token : String) (dir : DogDirection) (speed : F)
      → IsSound g
      → IsSound (steer g token dir speed)
  unfolding steer
  IsSound-steer g token dir speed v =
      let turn_one = λ (p : Player F). record p { dog = set_speed p.dog dir speed } in
      let change = λ (ps : List (Player F)). update_first (has_player_token token) turn_one ps in
      record {
        running =
            All-update_first (IsRunning g.storage.maps) (has_token token)
              (λ s. record s { players = change s.players }) g.sessions
              (λ s r. turned-IsRunning g.storage.maps token dir speed s r) v.running;
        distinct =
            MapsDistinct-map_ids g.sessions
              (update_first (has_token token) (λ s. record s { players = change s.players })
                g.sessions)
              (map_ids-update_first (has_token token) change g.sessions) v.distinct;
        holds = v.holds;
      }

  -- The sessions after a step that keeps the storage.
  IsSound-of :
      (g g' : Game F D G)
      → IsSound g
      → g'.storage ≡ g.storage
      → All (IsRunning g.storage.maps) g'.sessions
      → MapsDistinct g'.sessions
      → IsSound g'
  IsSound-of g g' v same r d = record {
    running = rw same r;
    distinct = d;
    holds = λ id m e. v.holds id m (ap (λ x. lookup id x.maps) (sym same) ∙ e);
  }

module _ {F D G : Type 0} ⦃f : Float F⦄ ⦃d : Double D⦄ ⦃sort : EventSort F⦄
    (draws : ℕ → ℕ → LootDraw F) where
  -- If a tick leads from the one game to the other, then no NaN arises in it.
  abbrev pub CanPass : Game F D G → Game F D G → Type 0
  CanPass x y =
      (delta_time : ℤ)
      → (generate_loot draws x delta_time >>= λ g. move_dogs g delta_time) ≡ ok y
      → All (CanTick delta_time) x.sessions

module _ {F D G W : Type 0} ⦃f : Float F⦄ ⦃d : Double D⦄ ⦃sort : EventSort F⦄
    (draws : W → ℕ → ℕ → LootDraw F) where
  abbrev pub NoNan :
      ⦃t : TokenGenerator G⦄ {to_double : F → D} {g g' : Game F D G}
      → Plays to_double draws g g'
      → Type 0
  NoNan start = Unit
  NoNan (next {g' = x} {g'' = y} ps w p) = NoNan ps × CanPass (draws w) x y

module _ {F D G : Type 0} ⦃f : Float F⦄ ⦃d : Double D⦄ ⦃sort : EventSort F⦄ ⦃t : TokenGenerator G⦄
    (to_double : F → D) (draws : ℕ → ℕ → LootDraw F) (laws : IsOrdered F) (dlaws : IsDouble D)
    (sorts : IsSort sort) (uniform : (i k : ℕ) → AreUniform (draws i k)) where
  round-IsSound :
      (g : Game F D G) (delta_time : ℤ)
      → IsSound g
      → All (CanTick delta_time) g.sessions
      → (g' : Game F D G) × ((generate_loot draws g delta_time >>= λ x. move_dogs x delta_time)
          ≡ ok g')
        × IsSound g'
  round-IsSound g delta_time v c =
      let (g', e, same, ids, r) =
        tick_total laws dlaws sorts draws g delta_time uniform v.running c in
      (g', e, IsSound-of g g' v same r (MapsDistinct-map_ids g.sessions g'.sessions ids v.distinct))

module _ {F D G W : Type 0} ⦃f : Float F⦄ ⦃d : Double D⦄ ⦃sort : EventSort F⦄ ⦃t : TokenGenerator G⦄
    (to_double : F → D) (draws : W → ℕ → ℕ → LootDraw F) (laws : IsOrdered F) (dlaws : IsDouble D)
    (sorts : IsSort sort) (uniform : (w : W) (i k : ℕ) → AreUniform (draws w i k)) where
  -- From a sound game, whatever players join and turn their dogs and whatever time passes, as long as
  -- no NaN arises, with random numbers in their bounds and a sort that keeps what the standard promises:
  -- the game stays sound, and any next tick in which no NaN arises returns and leaves a sound game.
  pub Plays-IsSound :
      (g : Game F D G) {g' : Game F D G} (ps : Plays to_double draws g g')
      → IsSound g
      → NoNan draws ps
      → IsSound g'
        × ((w : W) (delta_time : ℤ)
            → All (CanTick delta_time) g'.sessions
            → (g'' : Game F D G) × ((generate_loot (draws w) g' delta_time >>= λ x.
                  move_dogs x delta_time)
                ≡ ok g'')
              × IsSound g'')
  Plays-IsSound g {g'} ps v n =
      let v' = stays ps n in
      (
        v',
        λ w delta_time c.
            round-IsSound to_double (draws w) laws dlaws sorts (uniform w) g' delta_time v' c,
      )
    where
      stays : {x : Game F D G} (ps : Plays to_double draws g x) → NoNan draws ps → IsSound x
      stays start n = v
      stays (next ps w stay) (n, _) = stays ps n
      stays (next {g' = x} {g'' = y} ps _ (join id name e)) (n, _) =
          let w = stays ps n in
          let (same, r, d) = add_player_runs to_double x id name w.holds w.running w.distinct e in
          IsSound-of x y w same r d
      stays (next {g' = x} ps _ (turn token dir speed)) (n, _) =
          IsSound-steer x token dir speed (stays ps n)
      stays (next {g' = x} ps w (round delta_time e)) (n, c) =
          let (g'', e', v') =
            round-IsSound to_double (draws w) laws dlaws sorts (uniform w) x delta_time (stays ps n)
              (c delta_time e) in
          subst IsSound (ok_injective (sym e' ∙ e)) v'
