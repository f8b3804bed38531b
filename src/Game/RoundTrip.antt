-- ===== src/Game/RoundTrip.antt =====
-- Saved states that are restored: `create_game_state` and `restore_sessions` of src/core/Game.cpp.
use dog_game_cpp.Common.{
  lookup, ℕ, suc, ◌<◌, ◌≡◌, refl, sym, ap, ◌∙◌, inl, inr, ℤ, false, List, [], ◌∷◌, ◌++◌, map, some,
  none, String, str_eq, ◌==◌, arith, ok, find_if, any_of, All, All-append, Option-cases,
}
use mathlib.Core.List.{append_assoc, append-nil}
use dog_game_cpp.Float.{Float}
use dog_game_cpp.DataTypes.{
  PlayerState, SessionInfo, GatheredLootItem, DogState, DogDirection, LootInfo,
}
use dog_game_cpp.DataTypes.Directions.{
  direction_from_string, string_from_direction-direction_from_string,
}
use dog_game_cpp.LootGenerator.{Double}
use dog_game_cpp.MapModel.{GameMap}
use dog_game_cpp.Dog.{Dog, make_dog, get_state}
use dog_game_cpp.Session.Data.{Player, GameSession, player_state, make_session, has_name}
use dog_game_cpp.Session.{set_loot_list, get_session_state, make_player}
use dog_game_cpp.Session.Players.{any_of-append, any_of-find_if, add_player_new, joined}
use dog_game_cpp.Game.Data.{Game}
use dog_game_cpp.Game.Saving.{
  GameState, create_game_state, restored_bag, init_dog, update_player, restore_player,
  restore_players, restore_session, restore_all, restore_sessions,
}

module _ {F : Type 0} where
  -- The letter of the direction is one that is read.
  abbrev pub IsReadable : PlayerState F → Type 0
  IsReadable p = (d : DogDirection) × (direction_from_string p.dog.dir ≡ ok d)

  -- No two players have the same name.
  abbrev pub HaveNames : List (PlayerState F) → Type 0
  HaveNames [] = Unit
  HaveNames (p ∷ ps) = All (λ q. str_eq p.name q.name ≡ false) ps × HaveNames ps

  -- A saved session that a game with the maps can restore.
  pub record IsRestorable (maps : List (String × GameMap F)) (s : SessionInfo F) : Type 0 where
    pub here : GameMap F
    pub has_map : lookup s.map_id maps ≡ some here
    pub names : HaveNames s.players
    pub readable : All IsReadable s.players

-- A loot as it is saved.
abbrev saved : {F : Type 0} → LootInfo F → GatheredLootItem
saved l = record { id = l.id; type = l.type }

saved-restored_bag :
    (F : Type 0) ⦃f : Float F⦄ (bag : List GatheredLootItem)
    → map (saved {F = F}) (restored_bag bag) ≡ bag
unfolding restored_bag
saved-restored_bag F [] = refl
saved-restored_bag F (item ∷ bag) = ap (λ x. item ∷ x) (saved-restored_bag F bag)

absent :
    {F : Type 0} (name : String) (ps : List (Player F))
    → any_of (has_name name) ps ≡ false
    → find_if (has_name name) ps ≡ none
absent name ps e = elim (Option-cases (find_if (has_name name) ps)) [
  | inl q ↦ q
  | inr (p, q) ↦ absurd (ground (arith, e, any_of-find_if (has_name name) ps q))
]

map-append {ℓ κ} :
    {A : Type ℓ} {B : Type κ} (g : A → B) (xs ys : List A) → map g (xs ++ ys) ≡ map g xs ++ map g ys
map-append g [] ys = refl
map-append g (x ∷ xs) ys = ap (λ t. g x ∷ t) (map-append g xs ys)

-- A bound of addresses may be raised.
addresses-suc :
    {F : Type 0} (n : ℕ) (ps : List (Player F))
    → All (λ q. q.address < n) ps
    → All (λ q. q.address < suc n) ps
addresses-suc n [] h = tt
addresses-suc n (p ∷ ps) (h, hs) = (omega (arith, h), addresses-suc n ps hs)

-- The names that are still to come are not that of a player who has joined.
still_unknown :
    {F : Type 0} (q : Player F) (ps : List (Player F)) (states : List (PlayerState F))
    → All (λ (p : PlayerState F). any_of (has_name p.name) ps ≡ false) states
    → All (λ p. str_eq q.name p.name ≡ false) states
    → All (λ (p : PlayerState F). any_of (has_name p.name) (ps ++ q ∷ []) ≡ false) states
still_unknown q ps [] u a = tt
still_unknown q ps (p ∷ states) (u, us) (a, rest) = (
  ground (arith, u, a, any_of-append (has_name p.name) ps (q ∷ [])),
  still_unknown q ps states us rest,
)

module _ {F : Type 0} ⦃f : Float F⦄ where
  update_player-last :
      (address : ℕ) (change : Player F → Player F) (ps : List (Player F)) (p : Player F)
      → All (λ q. q.address < address) ps
      → p.address ≡ address
      → update_player address change (ps ++ p ∷ []) ≡ ps ++ change p ∷ []
  unfolding update_player
  update_player-last address change [] p h e = ground (arith, e)
  update_player-last address change (q ∷ ps) p (h, hs) e =
      let other : (q.address == address) ≡ false = ground (arith, h) in
      rw other (ap (λ x. q ∷ x) (update_player-last address change ps p hs e))

  -- The dog that `init_dog` makes of a new one.
  abbrev restored_dog : Dog F → DogState F → DogDirection → Dog F
  restored_dog dog state direction = record dog {
    position = state.pos;
    direction = direction;
    score = state.score;
    idle_time = state.idle_time;
    play_time = state.play_time;
    current_road_index = state.cur_road;
    gathered_loots = dog.gathered_loots ++ restored_bag state.bag;
  }

  get_state-restored_dog :
      (m : GameMap F) (capacity : ℤ) (state : DogState F) (d : DogDirection)
      → direction_from_string state.dir ≡ ok d
      → get_state (restored_dog (make_dog m capacity) state d) ≡ state
  unfolding get_state make_dog
  get_state-restored_dog m capacity state d e = λ i. record {
    pos = state.pos;
    dir = string_from_direction-direction_from_string state.dir d e i;
    score = state.score;
    idle_time = state.idle_time;
    play_time = state.play_time;
    cur_road = state.cur_road;
    bag = saved-restored_bag F state.bag i;
  }

module _ {F D G : Type 0} ⦃f : Float F⦄ ⦃dd : Double D⦄ (to_double : F → D) (g : Game F D G) where
  -- What the session must be before the players are restored into it.
  record IsOpen (s : GameSession F D) (states : List (PlayerState F)) : Type 0 where
    addresses : All (λ (q : Player F). q.address < s.allocated) s.players
    unknown : All (λ (p : PlayerState F). any_of (has_name p.name) s.players ≡ false) states

  nobody_yet :
      (states : List (PlayerState F))
      → All (λ (p : PlayerState F). any_of (has_name {F = F} p.name) [] ≡ false) states
  nobody_yet [] = tt
  nobody_yet (p ∷ states) = (refl, nobody_yet states)

  restore_player_lem :
      (id : String) (m : GameMap F) (s : GameSession F D) (p : PlayerState F)
      (states : List (PlayerState F))
      → lookup id g.storage.maps ≡ some m
      → IsOpen s (p ∷ states)
      → IsReadable p
      → All (λ q. str_eq p.name q.name ≡ false) states
      → (s' : GameSession F D) × (restore_player to_double g id s p ≡ ok s')
        × (map player_state s'.players ≡ map player_state s.players ++ p ∷ [])
        × (s'.map_id ≡ s.map_id)
        × (s'.loots_info ≡ s.loots_info)
        × IsOpen s' states
  unfolding restore_player make_player player_state init_dog
  restore_player_lem id m s p states known o (d, e) apart =
      let spawn = g.spawn_in_random_points in
      let capacity = g.storage.default_bag_capacity in
      let new = absent p.name s.players o.unknown.0 in
      let q0 = make_player s p.name m p.token capacity in
      let q : Player F = record q0 { id = p.id; dog = restored_dog q0.dog p.dog d } in
      let s1 = joined s p.name m p.token spawn capacity in
      let change = λ (x : Player F). record x { id = p.id; dog = restored_dog q0.dog p.dog d } in
      let last = update_player-last s.allocated change s.players q0 o.addresses refl in
      let state : player_state q ≡ p = λ i. record {
        id = p.id;
        name = p.name;
        token = p.token;
        dog = get_state-restored_dog m capacity p.dog d e i;
      } in
      (
        record s1 { players = s.players ++ q ∷ [] },
        rw (known, add_player_new s p.name m p.token spawn capacity new) (rw (e, last)),
        map-append player_state s.players (q ∷ [])
            ∙ ap (λ x. map player_state s.players ++ x ∷ []) state,
        refl,
        refl,
        record {
          addresses =
              All-append (λ x. x.address < suc s.allocated) s.players (q ∷ [])
                (addresses-suc s.allocated s.players o.addresses) (omega arith, tt);
          unknown = still_unknown q s.players states o.unknown.1 apart;
        },
      )

  restore_players_lem :
      (id : String) (m : GameMap F) (s : GameSession F D) (states : List (PlayerState F))
      → lookup id g.storage.maps ≡ some m
      → IsOpen s states
      → HaveNames states
      → All IsReadable states
      → (s' : GameSession F D) × (restore_players to_double g id s states ≡ ok s')
        × (map player_state s'.players ≡ map player_state s.players ++ states)
        × (s'.map_id ≡ s.map_id)
        × (s'.loots_info ≡ s.loots_info)
  unfolding restore_players
  restore_players_lem id m s [] known o n r = (s, refl, sym (append-nil _), refl, refl)
  restore_players_lem id m s (p ∷ states) known o (apart, n) (r, rs) =
      let (s1, e, ps, ids, loots, o1) = restore_player_lem id m s p states known o r apart in
      let (s2, e2, ps2, ids2, loots2) = restore_players_lem id m s1 states known o1 n rs in
      (
        s2,
        rw (e, e2),
        ps2 ∙ ap (λ x. x ++ states) ps ∙ append_assoc (map player_state s.players) (p ∷ []) states,
        ids2 ∙ ids,
        loots2 ∙ loots,
      )

  restore_session_lem :
      (state : SessionInfo F)
      → IsRestorable g.storage.maps state
      → (s : GameSession F D) × (restore_session to_double g state ≡ ok s)
        × (get_session_state s ≡ state)
  unfolding restore_session get_session_state set_loot_list make_session
  restore_session_lem state v =
      let new =
        set_loot_list (make_session to_double state.map_id g.loot_period g.loot_probability)
          state.loots_info_state in
      let opened : IsOpen new state.players = record {
        addresses = tt;
        unknown = nobody_yet state.players;
      } in
      let (s, e, ps, ids, loots) =
        restore_players_lem state.map_id v.here new state.players v.has_map opened v.names
          v.readable in
      (s, e, λ i. record { map_id = ids i; players = ps i; loots_info_state = loots i })

  restore_all_lem :
      (states : GameState F)
      → All (IsRestorable g.storage.maps) states
      → (ss : List (GameSession F D)) × (restore_all to_double g states ≡ ok ss)
        × (map get_session_state ss ≡ states)
  unfolding restore_all
  restore_all_lem [] v = ([], refl, refl)
  restore_all_lem (state ∷ states) (v, vs) =
      let (s, e, q) = restore_session_lem state v in
      let (ss, es, qs) = restore_all_lem states vs in (s ∷ ss, rw (e, es), λ i. q i ∷ qs i)

  -- A saved state whose maps the game knows, in whose sessions no two players have one name and whose
  -- letters of directions can be read, is restored: `restore_sessions` returns, and the state that the
  -- game would save afterwards is that state.
  pub create_game_state-restore_sessions :
      (states : GameState F)
      → All (IsRestorable g.storage.maps) states
      → (g' : Game F D G) × (restore_sessions to_double g states ≡ ok g')
        × (create_game_state g' ≡ states)
  unfolding restore_sessions create_game_state
  create_game_state-restore_sessions states v =
      let (ss, e, q) = restore_all_lem states v in (record g { sessions = ss }, rw e, q)
