-- ===== src/Game.antt =====
-- src/core/Game.h and src/core/Game.cpp: the sessions of all maps. Data has the objects, Saving the
-- saved states, Retirement the players that leave.
pub mod Data
pub mod Saving
pub mod RoundTrip
pub mod Retirement
pub mod Joining
pub mod Rounds
pub mod Entering
pub mod Names
use dog_game_cpp.Common.{
  ℕ, zero, suc, ℤ, pos, Bool, true, false, List, [], ◌∷◌, ◌++◌, Option, some, none, String, str_eq,
  if◌then◌else◌, Result, ok, err, ◌>>=◌, or_fail, find_if, any_of, empty_name, invalid_token,
  invalid_session, ◌≡◌,
}
use dog_game_cpp.Float.{Float}
use dog_game_cpp.DataTypes.{LootInfo}
use dog_game_cpp.MapModel.{GameMap}
use dog_game_cpp.Collision.{EventSort}
use dog_game_cpp.LootGenerator.{Double}
use dog_game_cpp.Session.Data.{Player, GameSession, make_session}
use dog_game_cpp.Session.Looting.{LootDraw}
use dog_game_cpp.Session
use dog_game_cpp.Session.{has_player_with_auth_token, get_player_with_auth_token}
use dog_game_cpp.Game.Data.{Game, MapStorage, TokenGenerator, map_at, make_game}

module _ {F D : Type 0} where
  abbrev pub is_on_map : String → GameSession F D → Bool
  is_on_map map_name s = str_eq s.map_id map_name

  abbrev pub has_token : String → GameSession F D → Bool
  has_token auth_token s = has_player_with_auth_token s auth_token

  -- Write back the first session on the map.
  unfoldable pub replace_session :
      String → GameSession F D → List (GameSession F D) → List (GameSession F D)
  replace_session map_name s' [] = []
  replace_session map_name s' (s ∷ ss) =
      if is_on_map map_name s then s' ∷ ss else s ∷ replace_session map_name s' ss

  -- The loop over the sessions of `MoveDogs` and of `GenerateLoot`.
  unfoldable pub each_session :
      (ℕ → GameSession F D → Result (GameSession F D))
      → ℕ
      → List (GameSession F D)
      → Result (List (GameSession F D))
  each_session step i [] = ok []
  each_session step i (s ∷ ss) = do s' ← step i s; ss' ← each_session step (suc i) ss; ok (s' ∷ ss')

module _ {F D G : Type 0} where
  abbrev pub find_map : Game F D G → String → Result (GameMap F)
  find_map g id = map_at g.storage.maps id

  unfoldable pub find_session : Game F D G → String → Option (GameSession F D)
  find_session g map_name = find_if (is_on_map map_name) g.sessions

  unfoldable pub get_session_for_token : Game F D G → String → Option (GameSession F D)
  get_session_for_token g auth_token = find_if (has_token auth_token) g.sessions

  unfoldable pub find_all_players_for_auth_info : Game F D G → String → Result (List (Player F))
  find_all_players_for_auth_info g auth_token = do
    session ← or_fail (get_session_for_token g auth_token) invalid_token
    ok session.players

  unfoldable pub get_loots_for_auth_info : Game F D G → String → Result (List (LootInfo F))
  get_loots_for_auth_info g auth_token = do
    session ← or_fail (get_session_for_token g auth_token) invalid_token
    ok session.loots_info

  -- `none` is the null pointer.
  unfoldable pub get_player : Game F D G → String → Result (Option (Player F))
  get_player g auth_token = elim (find_if (has_token auth_token) g.sessions) [
    | none ↦ ok none
    | some session ↦ get_player_with_auth_token session auth_token >>= λ p. ok (some p)
  ]

  unfoldable pub has_session_with_auth_info : Game F D G → String → Bool
  has_session_with_auth_info g auth_token = any_of (has_token auth_token) g.sessions

  unfoldable pub get_session_with_auth_info : Game F D G → String → Result (GameSession F D)
  get_session_with_auth_info g auth_token =
      or_fail (find_if (has_token auth_token) g.sessions) invalid_session

module _ {F D G : Type 0} ⦃f : Float F⦄ ⦃d : Double D⦄ (to_double : F → D) where
  -- The session that the player is to join, and the sessions with it in.
  unfoldable pub open_session : Game F D G → String → GameSession F D × List (GameSession F D)
  open_session g map_id = elim (find_session g map_id) [
    | some session ↦ (session, g.sessions)
    | none ↦
        let session = make_session to_double map_id g.loot_period g.loot_probability in
        (session, g.sessions ++ session ∷ [])
  ]

  -- The pair is the token and the id of the player.
  unfoldable pub add_player :
      ⦃t : TokenGenerator G⦄ → Game F D G → String → String → Result (Game F D G × (String × ℤ))
  add_player ⦃t⦄ g map_id player_name =
      let (session, sessions) = open_session g map_id in
      let (token, generator) = t.get_token g.generator in
      if str_eq player_name ""
      then err empty_name
      else find_map g map_id >>= λ map_to_add.
          let (session', player) =
            Session.add_player session player_name map_to_add token g.spawn_in_random_points
              g.storage.default_bag_capacity in
          ok (
            record g { sessions = replace_session map_id session' sessions; generator = generator },
            (player.token, player.id),
          )

module _ {F D G : Type 0} ⦃f : Float F⦄ where
  unfoldable pub move_dogs : ⦃s : EventSort F⦄ → Game F D G → ℤ → Result (Game F D G)
  move_dogs g delta_time = do
    sessions ← each_session (λ i s. Session.move_dogs s delta_time) 0 g.sessions
    ok (record g { sessions = sessions })

  -- Session `i` draws by `draws i`.
  unfoldable pub generate_loot :
      ⦃d : Double D⦄ → (ℕ → ℕ → LootDraw F) → Game F D G → ℤ → Result (Game F D G)
  generate_loot draws g delta_time = do
    sessions ←
        each_session
          (λ i s. find_map g s.map_id >>= λ m. Session.generate_loot (draws i) s delta_time m) 0
          g.sessions
    ok (record g { sessions = sessions })

  unfoldable pub set_loot_parameters : Game F D G → List (String × F) → Result (Game F D G)
  set_loot_parameters g loot = do
    period ← map_at loot "period"
    probability ← map_at loot "probability"
    ok (record g { loot_period = period; loot_probability = probability })

  -- The free function `create_game`.
  unfoldable pub create_game : MapStorage F → G → ℤ → Bool → Result (Game F D G)
  create_game storage tokenizer tick_period spawn_random_point =
      let game = make_game storage tokenizer tick_period spawn_random_point in
      let game' = record game {
        default_dog_speed = storage.default_dog_speed;
        dog_retirement_time = f.mul storage.default_dog_retirement_time (f.of_int (pos 1000));
      } in
      set_loot_parameters game' storage.loot_config >>= λ configured.
      ok (record configured { save_period = pos 15000; tick_period = tick_period })
