-- ===== src/Tests/Games.antt =====
-- The theorems on games at concrete values.
use dog_game_cpp.Common.{ℕ, suc, ◌≡◌, refl, ℤ, pos, true, false, List, [], ◌∷◌, String, ok, any_of}
use dog_game_cpp.DataTypes.{DogState, PlayerState, SessionInfo, east}
use dog_game_cpp.DataTypes.Directions.{direction_from_string}
use dog_game_cpp.Game.Saving.{create_game_state, restore_sessions}
use dog_game_cpp.Game.RoundTrip.{IsRestorable, create_game_state-restore_sessions}
use dog_game_cpp.Float.Fixed.{Fixed, fixed_float}
use dog_game_cpp.Session.Data.{Player, GameSession}
use dog_game_cpp.Game.Data.{Game, MapStorage, TokenGenerator}
use dog_game_cpp.Game.{add_player, has_session_with_auth_info, is_on_map}
use dog_game_cpp.Game.Joining.{MapsDistinct, add_player_joins}
use dog_game_cpp.Tests.Whole.{whole_double}
use dog_game_cpp.Tests.Values.{point, whole, town, anna, boris, session_of, runner}

instance abbrev pub same_token : TokenGenerator ℕ
same_token = record { get_token = λ n. ("token", suc n) }

abbrev pub to_whole : Fixed → ℕ
to_whole x = 1

abbrev one_town : MapStorage Fixed
one_town = record {
  maps = ("town", town) ∷ [];
  maps_json = ("town", "{}") ∷ [];
  loot_config = ("period", whole 5) ∷ ("probability", whole 1) ∷ [];
  default_dog_retirement_time = whole 60;
  default_dog_speed = whole 1;
  default_bag_capacity = pos 3;
}

abbrev pub game_of : List (GameSession Fixed ℕ) → Game Fixed ℕ ℕ
game_of sessions = record {
  storage = one_town;
  generator = 0;
  sessions = sessions;
  save_path = "state";
  default_dog_speed = whole 1;
  dog_retirement_time = whole 60000;
  tick_period = pos 50;
  spawn_in_random_points = false;
  loot_period = whole 5;
  loot_probability = whole 1;
  save_period = pos 15000;
  time_without_saving = pos 0;
}

dora_joins_town :
    let g = game_of (session_of (anna ∷ []) [] ∷ []) in
    (g' : Game Fixed ℕ ℕ) × (token : String) × (player : ℤ) × (add_player to_whole g "town" "Dora"
      ≡ ok (g', (token, player)))
    × (has_session_with_auth_info g' token ≡ true)
    × (any_of (is_on_map "town") g'.sessions ≡ true)
    × MapsDistinct g'.sessions
dora_joins_town =
    add_player_joins to_whole (game_of (session_of (anna ∷ []) [] ∷ [])) "town" "Dora" town refl
      refl (refl, tt)

abbrev tired : Player Fixed
tired = record boris { dog = record runner { idle_time = pos 60000 } }

abbrev two_sessions : List (GameSession Fixed ℕ)
two_sessions =
    session_of (anna ∷ []) [] ∷ record (session_of (tired ∷ []) []) { map_id = "city" } ∷ []

abbrev saved_dog : DogState Fixed
saved_dog = record {
  pos = point 3 0;
  dir = "R";
  score = pos 30;
  idle_time = pos 100;
  play_time = pos 9000;
  cur_road = pos 0;
  bag = record { id = pos 7; type = pos 0 } ∷ [];
}

abbrev saved_player : String → String → PlayerState Fixed
saved_player name token = record { id = pos 4; name = name; token = token; dog = saved_dog }

abbrev saved_session : SessionInfo Fixed
saved_session = record {
  map_id = "town";
  players = saved_player "Anna" "aa" ∷ saved_player "Boris" "bb" ∷ [];
  loots_info_state = [];
}

saved_session-IsRestorable : IsRestorable one_town.maps saved_session
unfolding direction_from_string
saved_session-IsRestorable = record {
  here = town;
  has_map = refl;
  names = ((refl, tt), (tt, tt));
  readable = ((east, refl), ((east, refl), tt));
}

town_restored :
    let g = game_of [] in
    (g' : Game Fixed ℕ ℕ) × (restore_sessions to_whole g (saved_session ∷ []) ≡ ok g')
    × (create_game_state g' ≡ saved_session ∷ [])
town_restored =
    create_game_state-restore_sessions to_whole (game_of []) (saved_session ∷ [])
      (saved_session-IsRestorable, tt)
