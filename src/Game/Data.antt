-- ===== src/Game/Data.antt =====
-- The objects of src/core/Game.h, and `class MapStorage` of src/core/MapParser.h.
use dog_game_cpp.Common.{lookup, ℤ, pos, Bool, List, [], String, Result, or_fail, out_of_range}
use dog_game_cpp.Float.{Float}
use dog_game_cpp.MapModel.{GameMap}
use dog_game_cpp.Session.Data.{GameSession}

-- A `std::map` with text keys: `at` throws where the key is missing.
module _ {ℓ} {V : Type ℓ} where
  abbrev pub map_at : List (String × V) → String → Result V
  map_at m k = or_fail (lookup k m) out_of_range

pub record MapStorage (F : Type 0) : Type 0 where
  pub maps : List (String × GameMap F)
  pub maps_json : List (String × String)
  pub loot_config : List (String × F)
  pub default_dog_retirement_time : F
  pub default_dog_speed : F
  pub default_bag_capacity : ℤ

-- `utils::ITokenGenerator`: the state of a generator, and `GetToken`.
pub record TokenGenerator (G : Type 0) : Type 0 where
  pub get_token : G → String × G

pub record Game (F D G : Type 0) : Type 0 where
  pub storage : MapStorage F
  pub generator : G
  pub sessions : List (GameSession F D)
  pub save_path : String
  pub default_dog_speed : F
  pub dog_retirement_time : F
  pub tick_period : ℤ
  pub spawn_in_random_points : Bool
  pub loot_period : F
  pub loot_probability : F
  pub save_period : ℤ
  pub time_without_saving : ℤ

module _ {F D G : Type 0} ⦃f : Float F⦄ where
  -- The constructor `Game::Game`, with the values that the fields start from.
  unfoldable pub make_game : MapStorage F → G → ℤ → Bool → Game F D G
  make_game storage generator tick_period spawn_in_random_points = record {
    storage = storage;
    generator = generator;
    sessions = [];
    save_path = "sessions_state.tmp";
    default_dog_speed = f.literal 0 0;
    dog_retirement_time = f.mul (f.of_int (pos 60)) (f.literal 1000 0);
    tick_period = tick_period;
    spawn_in_random_points = spawn_in_random_points;
    loot_period = f.literal 0 0;
    loot_probability = f.literal 0 0;
    save_period = pos 0;
    time_without_saving = pos 0;
  }
