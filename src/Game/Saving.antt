-- ===== src/Game/Saving.antt =====
-- src/core/Game.cpp: saved states. `serialize_game_state`, which writes a file through the
-- serialization library, is the state that it is given.
use dog_game_cpp.Common.{
  ℕ, ℤ, pos, int_add, ltb_ℤ, List, [], ◌∷◌, ◌++◌, map, Option, some, none, String, if◌then◌else◌,
  ◌==◌, Result, ok, ◌>>=◌,
}
use dog_game_cpp.Float.{Float}
use dog_game_cpp.DataTypes.{PlayerState, SessionInfo, GatheredLootItem, LootInfo, DogState}
use dog_game_cpp.DataTypes.Directions.{direction_from_string}
use dog_game_cpp.LootGenerator.{Double}
use dog_game_cpp.Dog.{Dog}
use dog_game_cpp.Session.Data.{Player, GameSession, make_session}
use dog_game_cpp.Session
use dog_game_cpp.Session.{set_loot_list, get_session_state}
use dog_game_cpp.Game.Data.{Game}
use dog_game_cpp.Game.{find_map}

abbrev pub GameState : Type 0 → Type 0
GameState F = List (SessionInfo F)

module _ {F D G : Type 0} where
  unfoldable pub create_game_state : Game F D G → GameState F
  create_game_state g = map get_session_state g.sessions

  -- The state that is written to `save_path`; an empty one is not.
  unfoldable pub serialize_state : Game F D G → Option (GameState F)
  serialize_state g = elim (create_game_state g) [ [] ↦ none | s ∷ ss ↦ some (s ∷ ss) ]

  unfoldable pub serialize_sessions : Game F D G → ℤ → Game F D G × Option (GameState F)
  serialize_sessions g interval =
      let time = int_add g.time_without_saving interval in
      if ltb_ℤ time g.save_period
      then (record g { time_without_saving = time }, none)
      else (record g { time_without_saving = pos 0 }, serialize_state g)

module _ {F : Type 0} ⦃f : Float F⦄ where
  -- The bag as it is restored: the places of its loot are not saved.
  unfoldable pub restored_bag : List GatheredLootItem → List (LootInfo F)
  restored_bag = map (λ item. record {
    id = item.id;
    type = item.type;
    x = f.of_int (pos 0);
    y = f.of_int (pos 0);
  })

  unfoldable pub init_dog : Dog F → DogState F → Result (Dog F)
  init_dog dog state = do
    direction ← direction_from_string state.dir
    ok (record dog {
      position = state.pos;
      direction = direction;
      score = state.score;
      idle_time = state.idle_time;
      play_time = state.play_time;
      current_road_index = state.cur_road;
      gathered_loots = dog.gathered_loots ++ restored_bag state.bag;
    })

  -- Change the player object at the address.
  unfoldable pub update_player : ℕ → (Player F → Player F) → List (Player F) → List (Player F)
  update_player address change [] = []
  update_player address change (p ∷ ps) =
      (if p.address == address then change p else p) ∷ update_player address change ps

module _ {F D G : Type 0} ⦃f : Float F⦄ ⦃d : Double D⦄ (to_double : F → D) where
  -- The body of the inner loop of `restore_sessions`.
  unfoldable pub restore_player :
      Game F D G → String → GameSession F D → PlayerState F → Result (GameSession F D)
  restore_player g map_id session state = do
    map_to_add ← find_map g map_id
    let (session', player) =
        Session.add_player session state.name map_to_add state.token g.spawn_in_random_points
          g.storage.default_bag_capacity
    dog ← init_dog player.dog state.dog
    ok (record session' {
      players =
          update_player player.address (λ p. record p { id = state.id; dog = dog })
            session'.players;
    })

  unfoldable pub restore_players :
      Game F D G → String → GameSession F D → List (PlayerState F) → Result (GameSession F D)
  restore_players g map_id session [] = ok session
  restore_players g map_id session (state ∷ states) =
      restore_player g map_id session state >>= λ session'. restore_players g map_id session' states

  unfoldable pub restore_session : Game F D G → SessionInfo F → Result (GameSession F D)
  restore_session g state =
      let session = make_session to_double state.map_id g.loot_period g.loot_probability in
      restore_players g state.map_id (set_loot_list session state.loots_info_state) state.players

  unfoldable pub restore_all : Game F D G → GameState F → Result (List (GameSession F D))
  restore_all g [] = ok []
  restore_all g (state ∷ states) = do
    session ← restore_session g state
    sessions ← restore_all g states
    ok (session ∷ sessions)

  unfoldable pub restore_sessions : Game F D G → GameState F → Result (Game F D G)
  restore_sessions g states = do
    sessions ← restore_all g states
    ok (record g { sessions = sessions })
