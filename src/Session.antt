-- ===== src/Session.antt =====
-- src/core/GameSession.cpp: the operations of `class GameSession`. The data stand in Data, the
-- handling of loot in Looting.
pub mod Data
pub mod Looting
pub mod Loot
pub mod Moves
pub mod Rounds
pub mod Players
pub mod Drops
pub mod Spawn
use dog_game_cpp.Common.{
  ℕ, zero, suc, ◌+◌, ℤ, pos, ◌-ℤ◌, int_add, to_int, eqb_ℤ, Bool, true, false, List, [], ◌∷◌, ◌++◌,
  map, Option, some, none, String, str_eq, ◌==◌, if◌then◌else◌, not, Result, ok, err, ◌>>=◌,
  or_fail, at, length, find_if, any_of, keep_if, player_absent, loot_not_specified,
  road_not_specified, undefined,
}
use dog_game_cpp.Float.{Float}
use dog_game_cpp.Utils.{Draw, get_random_int_number, get_random_float_number}
use dog_game_cpp.DataTypes.{Point, LootInfo, Office, PlayerState, SessionInfo}
use dog_game_cpp.MapModel.{GameMap, Road, is_horizontal}
use dog_game_cpp.Collision.{Item, ItemType, Gatherer, GatheringEvent, EventSort, find_gather_events}
use dog_game_cpp.LootGenerator.{Double, LootGenerator, make_loot_generator, generate}
use dog_game_cpp.Dog.{
  Dog, make_dog, move, add_loot, pass_loot_to_office, get_state, add_idle_time, set_idle_time,
  add_play_time, ordered,
}
use dog_game_cpp.Session.Data.{Player, GameSession, player_state, has_name, has_token}
use dog_game_cpp.Session.Looting.{
  LootDraw, has_loot_id, erase_first, get_loot_position, loot_on_road, generate_loot_info, items_of,
  items_at, get_gathered_items, pick_up, visit, add_loot_to_dog,
}

module _ {F D : Type 0} where
  unfoldable pub get_session_state : GameSession F D → SessionInfo F
  get_session_state s = record {
    map_id = s.map_id;
    players = map player_state s.players;
    loots_info_state = s.loots_info;
  }

  unfoldable pub has_player_with_auth_token : GameSession F D → String → Bool
  has_player_with_auth_token s token = any_of (has_token token) s.players

  unfoldable pub get_player_with_auth_token : GameSession F D → String → Result (Player F)
  get_player_with_auth_token s token = or_fail (find_if (has_token token) s.players) player_absent

  -- The pointer that is deleted is given by its address.
  unfoldable pub delete_player : GameSession F D → ℕ → GameSession F D
  delete_player s address = record s {
    players = keep_if (λ p. not (p.address == address)) s.players;
  }

  -- `loots_info_ = std::move(loot)` leaves `loot` empty, so that `loot_id_ += loot.size()` adds zero.
  unfoldable pub set_loot_list : GameSession F D → List (LootInfo F) → GameSession F D
  set_loot_list s loot = record s { loots_info = loot; loot_id = int_add s.loot_id (pos 0) }

module _ {F : Type 0} ⦃f : Float F⦄ where
  -- The end of the loop's body, for a dog that has moved.
  unfoldable pub gather :
      ⦃s : EventSort F⦄
      → Option (GameMap F)
      → List (LootInfo F)
      → Dog F
      → Gatherer F
      → Result (Dog F × List (LootInfo F) × Bool)
  gather m loots dog g = do
    items ← get_gathered_items g loots m
    (dog', loots') ← add_loot_to_dog (set_idle_time dog (pos 0)) loots items
    ok (dog', loots', true)

  -- The body of the loop of `MoveDogs`, for one dog: the dog and the loot on the map afterwards, and
  -- whether the loop goes on. Where the dog has not moved, the source returns from the function.
  unfoldable pub move_dog :
      ⦃s : EventSort F⦄
      → ℤ
      → Option (GameMap F)
      → List (LootInfo F)
      → Dog F
      → Result (Dog F × List (LootInfo F) × Bool)
  move_dog delta_time m loots dog = do
    (dog', gatherer) ← move (add_play_time dog delta_time) delta_time
    elim gatherer [
      | none ↦ ok (add_idle_time dog' delta_time, loots, false)
      | some g ↦ gather m loots dog' g
    ]

  unfoldable pub move_players :
      ⦃s : EventSort F⦄
      → ℤ
      → Option (GameMap F)
      → List (LootInfo F)
      → List (Player F)
      → Result (List (Player F) × List (LootInfo F))
  move_players delta_time m loots [] = ok ([], loots)
  move_players delta_time m loots (p ∷ ps) = do
    (dog, loots', goes_on) ← move_dog delta_time m loots p.dog
    let p' = record p { dog = dog }
    elim goes_on [
      | false ↦ ok (p' ∷ ps, loots')
      | true ↦ do (ps', loots'') ← move_players delta_time m loots' ps; ok (p' ∷ ps', loots'')
    ]

module _ {F D : Type 0} ⦃f : Float F⦄ where
  -- `std::make_shared<Player>(player_id, player_name, token, dog)`
  unfoldable pub make_player : GameSession F D → String → GameMap F → String → ℤ → Player F
  make_player s player_name player_map token default_bag_capacity = record {
    id = s.player_id;
    name = player_name;
    token = token;
    dog = make_dog player_map default_bag_capacity;
    address = s.allocated;
  }

  -- `spawn_dog_in_random_point` is not read by the source.
  unfoldable pub add_player :
      GameSession F D → String → GameMap F → String → Bool → ℤ → GameSession F D × Player F
  add_player s player_name player_map token spawn_dog_in_random_point default_bag_capacity =
      let player = make_player s player_name player_map token default_bag_capacity in
      elim (find_if (has_name player_name) s.players) [
        | some old ↦ (record s { map = some player_map }, old)
        | none ↦ (
          record s {
            map = some player_map;
            players = s.players ++ player ∷ [];
            player_id = int_add s.player_id (pos 1);
            allocated = suc s.allocated;
          },
          player,
        )
      ]

  unfoldable pub move_dogs : ⦃s : EventSort F⦄ → GameSession F D → ℤ → Result (GameSession F D)
  move_dogs s delta_time = do
    (players, loots) ← move_players delta_time s.map s.loots_info s.players
    ok (record s { players = players; loots_info = loots })

  -- The `while` loop of `GenerateLoot`: round `n` draws by `draws n`.
  unfoldable pub generate_loots :
      (ℕ → LootDraw F) → ℕ → GameSession F D → GameMap F → Result (GameSession F D)
  generate_loots draws zero s m = ok s
  generate_loots draws (suc n) s m = do
    loot ← generate_loot_info (draws n) s.loot_id m
    generate_loots draws n
        (record s { loots_info = s.loots_info ++ loot ∷ []; loot_id = int_add s.loot_id (pos 1) }) m

  unfoldable pub generate_loot :
      ⦃d : Double D⦄ → (ℕ → LootDraw F) → GameSession F D → ℤ → GameMap F → Result (GameSession F D)
  generate_loot draws s delta_time m =
      let (n, generator) =
        generate s.loot_generator delta_time (length s.loots_info) (length s.players) in
      generate_loots draws n (record s { loot_generator = generator }) m
