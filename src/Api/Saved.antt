-- ===== src/Api/Saved.antt =====
-- The states that are saved of the games that the steps of Play lead to.
use dog_game_cpp.Common.{
  lookup, ℕ, ◌≡◌, refl, sym, ap, ◌∙◌, subst, inl, inr, ℤ, Bool, false, List, [], ◌∷◌, map, some,
  String, str_eq, eq_iff, arith, ok, ◌>>=◌, >>=-eq-ok, ok_injective, find_if, any_of, All,
  Bool-cases, Option-cases,
}
use dog_game_cpp.Float.{Float}
use dog_game_cpp.DataTypes.{DogDirection}
use dog_game_cpp.DataTypes.Directions.{direction_from_string-string_from_direction}
use dog_game_cpp.MapModel.{GameMap}
use dog_game_cpp.Collision.{EventSort}
use dog_game_cpp.LootGenerator.{Double}
use dog_game_cpp.Dog.{get_state, set_speed}
use dog_game_cpp.Session.Data.{
  Player, GameSession, make_session, has_name, player_state, has_token as has_player_token,
}
use dog_game_cpp.Session.Looting.{LootDraw}
use dog_game_cpp.Session
use dog_game_cpp.Session.{get_session_state}
use dog_game_cpp.Session.Players.{NamesDistinct, add_player-NamesDistinct, add_player-map_id}
use dog_game_cpp.Game.Data.{Game, TokenGenerator}
use dog_game_cpp.Game.{
  is_on_map, has_token, add_player, generate_loot, move_dogs, find_map, each_session, open_session,
  find_session,
}
use dog_game_cpp.Game.Saving.{create_game_state, restore_sessions}
use dog_game_cpp.Game.RoundTrip.{
  IsReadable, HaveNames, IsRestorable, create_game_state-restore_sessions,
}
use dog_game_cpp.Game.Entering.{found_session, replaced}
use dog_game_cpp.Game.Names.{
  names_of, NamesDistinct-names_of, view, each_session-view, generate_loot-view, move_dogs-view,
}
use dog_game_cpp.Api.{update_first, steer}
use dog_game_cpp.Api.Play.{stay, join, turn, round, Plays, start, next}
use dog_game_cpp.Api.Storage.{Plays-storage}

module _ {F : Type 0} where
  names_of-update_first :
      (p : Player F → Bool) (change : Player F → Player F)
      → ((x : Player F) → (change x).name ≡ x.name)
      → (ps : List (Player F)) → names_of (update_first p change ps) ≡ names_of ps
  unfolding update_first
  names_of-update_first p change kept [] = refl
  names_of-update_first p change kept (x ∷ ps) = elim (Bool-cases (p x)) [
    | inl hit ↦ rw (hit, kept x) refl
    | inr miss ↦ rw (miss, names_of-update_first p change kept ps) refl
  ]

module _ {F D : Type 0} where
  -- The storage has the map of the session, and no two of its players have the same name.
  record IsNamed (maps : List (String × GameMap F)) (s : GameSession F D) : Type 0 where
    here : GameMap F
    stored : lookup s.map_id maps ≡ some here
    names : NamesDistinct s.players

  IsNamed-view :
      (maps : List (String × GameMap F)) (ss ss' : List (GameSession F D))
      → map view ss' ≡ map view ss
      → All (IsNamed maps) ss
      → All (IsNamed maps) ss'
  IsNamed-view maps [] [] e v = tt
  IsNamed-view maps [] (s' ∷ ss') e v = cc
  IsNamed-view maps (s ∷ ss) [] e v = cc
  IsNamed-view maps (s ∷ ss) (s' ∷ ss') e (v, vs) =
      let same : view s' ≡ view s = cc in
      let rest : map view ss' ≡ map view ss = cc in
      (
        record {
          here = v.here;
          stored = ap (λ (x : String × List String). lookup x.0 maps) same ∙ v.stored;
          names =
              NamesDistinct-names_of s.players s'.players
                (ap (λ (x : String × List String). x.1) same) v.names;
        },
        IsNamed-view maps ss ss' rest vs,
      )

  view-update_first :
      (p : GameSession F D → Bool) (change : List (Player F) → List (Player F))
      → ((ps : List (Player F)) → names_of (change ps) ≡ names_of ps)
      → (ss : List (GameSession F D))
      → map view (update_first p (λ s. record s { players = change s.players }) ss) ≡ map view ss
  unfolding update_first
  view-update_first p change kept [] = refl
  view-update_first p change kept (s ∷ ss) = elim (Bool-cases (p s)) [
    | inl hit ↦ rw (hit, kept s.players) refl
    | inr miss ↦ rw (miss, view-update_first p change kept ss) refl
  ]

module _ {F D G : Type 0} ⦃f : Float F⦄ where
  round-view :
      ⦃d : Double D⦄ ⦃sort : EventSort F⦄ (draws : ℕ → ℕ → LootDraw F) (g : Game F D G)
      (delta_time : ℤ) {g' : Game F D G}
      → (generate_loot draws g delta_time >>= λ x. move_dogs x delta_time) ≡ ok g'
      → map view g'.sessions ≡ map view g.sessions
  unfolding generate_loot move_dogs
  round-view draws g delta_time e =
      let (x, e1, e2) = >>=-eq-ok (generate_loot draws g delta_time) _ e in
      let (ss, k1, q1) =
        >>=-eq-ok
          (each_session
            (λ i s. find_map g s.map_id >>= λ m. Session.generate_loot (draws i) s delta_time m) 0
            g.sessions)
          _ e1 in
      let (ss', k2, q2) =
        >>=-eq-ok (each_session (λ i s. Session.move_dogs s delta_time) 0 x.sessions) _ e2 in
      sym (ap (λ (y : Game F D G). map view y.sessions) (ok_injective q2))
      ∙ each_session-view _ 0 x.sessions (λ k s s' h. move_dogs-view s delta_time h) k2
      ∙ sym (ap (λ (y : Game F D G). map view y.sessions) (ok_injective q1))
      ∙ each_session-view _ 0 g.sessions
          (λ k s s' h.
            let (m, _, h') = >>=-eq-ok (find_map g s.map_id) _ h in
            generate_loot-view (draws k) s delta_time m h')
          k1

  steer-view :
      (g : Game F D G) (token : String) (dir : DogDirection) (speed : F)
      → map view (steer g token dir speed).sessions ≡ map view g.sessions
  unfolding steer
  steer-view g token dir speed =
      view-update_first (has_token token)
        (λ ps.
          update_first (has_player_token token)
            (λ (p : Player F). record p { dog = set_speed p.dog dir speed }) ps)
        (λ ps. names_of-update_first (has_player_token token) _ (λ x. refl) ps) g.sessions

module _ {F D G : Type 0} ⦃f : Float F⦄ ⦃d : Double D⦄ (to_double : F → D) where
  open_session-names :
      (g : Game F D G) (id : String)
      → All (IsNamed g.storage.maps) g.sessions
      → let (session, _) = open_session to_double g id in
        (session.map_id ≡ id) × NamesDistinct session.players
  unfolding open_session find_session make_session
  open_session-names g id v = elim (Option-cases (find_if (is_on_map id) g.sessions)) [
    | inl n ↦ rw (n, open_session) (refl, tt)
    | inr (s, k) ↦
        let (on_map, named) = found_session (IsNamed g.storage.maps) id g.sessions k v in
        rw (k, open_session) (on_map, named.names)
  ]

  add_player-IsNamed :
      ⦃t : TokenGenerator G⦄ (g : Game F D G) (id name : String) {g' : Game F D G}
      {who : String × ℤ}
      → add_player to_double g id name ≡ ok (g', who)
      → All (IsNamed g.storage.maps) g.sessions
      → All (IsNamed g.storage.maps) g'.sessions
  unfolding add_player
  add_player-IsNamed ⦃t⦄ g id name e v = elim (Bool-cases (str_eq name "")) [
    | inl empty ↦ let q = rw empty at e in cc
    | inr named ↦ elim (Option-cases (lookup id g.storage.maps)) [
      | inl n ↦ let q = rw (named, n) at e in cc
      | inr (m, k) ↦
          let q = rw (named, k) at e in
          let (on_map, distinct) = open_session-names g id v in
          let session = (open_session to_double g id).0 in
          let token = (t.get_token g.generator).0 in
          let spawn = g.spawn_in_random_points in
          let capacity = g.storage.default_bag_capacity in
          let opened = Session.add_player session name m token spawn capacity in
          let new : IsNamed g.storage.maps opened.0 = record {
            here = m;
            stored =
                ap (λ x. lookup x g.storage.maps)
                  (add_player-map_id session name m token spawn capacity ∙ on_map)
                ∙ k;
            names = add_player-NamesDistinct session name m token spawn capacity distinct;
          } in
          subst (λ (x : Game F D G × (String × ℤ)). All (IsNamed g.storage.maps) x.0.sessions)
            (ok_injective q) (replaced to_double (IsNamed g.storage.maps) g id opened.0 v new)
    ]
  ]

module _ {F D G : Type 0} ⦃f : Float F⦄ ⦃d : Double D⦄ ⦃sort : EventSort F⦄ ⦃t : TokenGenerator G⦄
    {to_double : F → D} {W : Type 0} {draws : W → ℕ → ℕ → LootDraw F} where
  Plays-IsNamed :
      {g g' : Game F D G}
      → Plays to_double draws g g'
      → All (IsNamed g.storage.maps) g.sessions
      → All (IsNamed g.storage.maps) g'.sessions
  Plays-IsNamed start v = v
  Plays-IsNamed (next ps w stay) v = Plays-IsNamed ps v
  Plays-IsNamed {g} (next {g' = x} {g'' = y} ps _ (join id name e)) v =
      let same = Plays-storage ps in
      let w = subst (λ n. All (IsNamed n.maps) x.sessions) (sym same) (Plays-IsNamed ps v) in
      subst (λ n. All (IsNamed n.maps) y.sessions) same (add_player-IsNamed to_double x id name e w)
  Plays-IsNamed {g} (next {g' = x} ps _ (turn token dir speed)) v =
      IsNamed-view g.storage.maps x.sessions (steer x token dir speed).sessions
        (steer-view x token dir speed) (Plays-IsNamed ps v)
  Plays-IsNamed {g} (next {g' = x} {g'' = y} ps w (round delta_time e)) v =
      IsNamed-view g.storage.maps x.sessions y.sessions (round-view (draws w) x delta_time e)
        (Plays-IsNamed ps v)

module _ {F : Type 0} where
  other_name :
      (p : Player F) (ps : List (Player F))
      → any_of (has_name p.name) ps ≡ false
      → All (λ q. str_eq p.name q.name ≡ false) (map player_state ps)
  unfolding player_state
  other_name p [] e = tt
  other_name p (q ∷ ps) e = (
    ground (arith, e, eq_iff p.name q.name, eq_iff q.name p.name),
    other_name p ps (ground (arith, e)),
  )

  have_names : (ps : List (Player F)) → NamesDistinct ps → HaveNames (map player_state ps)
  unfolding player_state
  have_names [] d = tt
  have_names (p ∷ ps) (d, ds) = (other_name p ps d, have_names ps ds)

  All-IsReadable : (ps : List (Player F)) → All IsReadable (map player_state ps)
  unfolding player_state get_state
  All-IsReadable [] = tt
  All-IsReadable (p ∷ ps) = (
    (p.dog.direction, direction_from_string-string_from_direction p.dog.direction),
    All-IsReadable ps,
  )

module _ {F D : Type 0} where
  All-IsRestorable :
      (maps : List (String × GameMap F)) (ss : List (GameSession F D))
      → All (IsNamed maps) ss
      → All (IsRestorable maps) (map get_session_state ss)
  unfolding get_session_state
  All-IsRestorable maps [] v = tt
  All-IsRestorable maps (s ∷ ss) (v, vs) = (
    record {
      here = v.here;
      has_map = v.stored;
      names = have_names s.players v.names;
      readable = All-IsReadable s.players;
    },
    All-IsRestorable maps ss vs,
  )

module _ {F D G : Type 0} ⦃f : Float F⦄ ⦃d : Double D⦄ ⦃sort : EventSort F⦄ ⦃t : TokenGenerator G⦄
    {to_double : F → D} {W : Type 0} {draws : W → ℕ → ℕ → LootDraw F} where
  -- From a game without sessions: whatever players join, turn their dogs and whatever time passes, a game
  -- with the same maps restores the state that is then saved, and would save it again as it is.
  pub Plays-restore_sessions :
      (g : Game F D G) {g' : Game F D G} (another : Game F D G)
      → g.sessions ≡ []
      → Plays to_double draws g g'
      → another.storage ≡ g.storage
      → (restored : Game F D G) × (restore_sessions to_double another (create_game_state g')
          ≡ ok restored)
        × (create_game_state restored ≡ create_game_state g')
  unfolding create_game_state
  Plays-restore_sessions g {g'} another no_sessions ps same =
      let named = Plays-IsNamed ps (rw no_sessions tt) in
      create_game_state-restore_sessions to_double another (map get_session_state g'.sessions)
        (rw same (All-IsRestorable g.storage.maps g'.sessions named))
