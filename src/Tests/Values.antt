-- ===== src/Tests/Values.antt =====
-- A small town: two roads that meet, an office and one type of loot.
use dog_game_cpp.Common.{ℕ, ◌*◌, ◌^◌, refl, pos, List, [], ◌∷◌, some, All, arith}
use dog_game_cpp.Float.Fixed.{Fixed, fixed_float}
use dog_game_cpp.DataTypes.{Point, LootInfo, Loot, east}
use dog_game_cpp.MapModel.{Road, GameMap}
use dog_game_cpp.Dog.{Dog, make_dog}
use dog_game_cpp.Dog.Bag.{HasType}
use dog_game_cpp.Dog.Placement.{HasNumbers, HasCurrentRoad}
use dog_game_cpp.Dog.Start.{make_dog-HasCurrentRoad}
use dog_game_cpp.Session.Data.{Player, GameSession}
use dog_game_cpp.Tests.Whole.{whole_double}

abbrev pub whole : ℕ → Fixed
whole n = some (pos (n * 10 ^ 4))

abbrev pub point : ℕ → ℕ → Point Fixed
point x y = record { x = whole x; y = whole y }

abbrev pub main_street : Road Fixed
main_street = record { start = point 0 0; end = point 10 0 }

abbrev pub side_street : Road Fixed
side_street = record { start = point 10 0; end = point 10 5 }

abbrev pub key : Loot Fixed
key = record {
  name = "key";
  file = "key.obj";
  type = "obj";
  rotation = pos 90;
  color = "#338844";
  scale = whole 1;
  score = pos 10;
}

abbrev pub town : GameMap Fixed
town = record {
  id = "town";
  name = "Town";
  roads = main_street ∷ side_street ∷ [];
  offices =
      record { id = "o0"; position = point 3 0; offset = record { dx = whole 5; dy = whole 0 } }
      ∷ [];
  loots = key ∷ [];
  dog_speed = whole 1;
  bag_capacity = pos 3;
}

-- A dog that runs east along the main street, with one key.
abbrev pub lost_key : LootInfo Fixed
lost_key = record { id = pos 7; type = pos 0; x = whole 2; y = whole 0 }

abbrev pub runner : Dog Fixed
runner = record (make_dog town (pos 3)) {
  direction = east;
  position = point 1 0;
  speed = record { vx = whole 4; vy = whole 0 };
  gathered_loots = lost_key ∷ [];
  idle_time = pos 0;
  score = pos 5;
  play_time = pos 0;
  current_road_index = pos 0;
  bag_capacity = pos 3;
  map = town;
  roads = town.roads;
}

pub town-HasNumbers : All HasNumbers town.roads
town-HasNumbers = ((refl, refl, refl, refl), ((refl, refl, refl, refl), tt))

pub runner-HasCurrentRoad : HasCurrentRoad runner
unfolding make_dog
runner-HasCurrentRoad =
    let fresh = make_dog-HasCurrentRoad town (pos 3) (omega arith) town-HasNumbers in
    record {
      index = 0;
      road = main_street;
      is_current = refl;
      has_road = refl;
      closed = fresh.closed;
      numbers = town-HasNumbers;
    }

pub lost_key-HasType : HasType town lost_key
lost_key-HasType = record { index = 0; kind = key; type_is = refl; has_kind = refl }

abbrev pub second_key : LootInfo Fixed
second_key = record { id = pos 8; type = pos 0; x = whole 4; y = whole 0 }

abbrev pub anna : Player Fixed
anna = record { id = pos 0; name = "Anna"; token = "aa"; dog = runner; address = 0 }

abbrev pub boris : Player Fixed
boris = record { id = pos 1; name = "Boris"; token = "bb"; dog = runner; address = 1 }

abbrev pub session_of : List (Player Fixed) → List (LootInfo Fixed) → GameSession Fixed ℕ
session_of players loots = record {
  map_id = "town";
  loot_generator = record { base_interval = pos 5000; probability = 1; time_without_loot = pos 0 };
  players = players;
  loots_info = loots;
  player_id = pos 2;
  map = some town;
  loot_id = pos 0;
  allocated = 2;
}
