-- ===== src/Session/Data.antt =====
-- The objects of src/core/GameSession.h and `class Player` of src/core/Dog.h. A player object is
-- reached through `std::shared_ptr` from the vector `players_` alone, so it stands in the list by
-- value; `address` stands for the identity of the object, which `std::make_shared` makes new.
use dog_game_cpp.Common.{ℕ, ℤ, pos, Bool, List, [], Option, none, String, str_eq}
use dog_game_cpp.Float.{Float}
use dog_game_cpp.DataTypes.{LootInfo, PlayerState}
use dog_game_cpp.MapModel.{GameMap}
use dog_game_cpp.LootGenerator.{Double, LootGenerator, make_loot_generator}
use dog_game_cpp.Dog.{Dog, get_state}

pub record Player (F : Type 0) : Type 0 where
  pub id : ℤ
  pub name : String
  pub token : String
  pub dog : Dog F
  pub address : ℕ

-- `map` is the pointer `map_`, null until a player is added; `allocated` counts the player objects
-- that were made.
pub record GameSession (F D : Type 0) : Type 0 where
  pub map_id : String
  pub loot_generator : LootGenerator D
  pub players : List (Player F)
  pub loots_info : List (LootInfo F)
  pub player_id : ℤ
  pub map : Option (GameMap F)
  pub loot_id : ℤ
  pub allocated : ℕ

unfoldable pub player_state : {F : Type 0} → Player F → PlayerState F
unfolding get_state
player_state p = record { id = p.id; name = p.name; token = p.token; dog = get_state p.dog }

module _ {F D : Type 0} ⦃f : Float F⦄ ⦃d : Double D⦄ (to_double : F → D) where
  unfoldable pub make_session : String → F → F → GameSession F D
  make_session map_id loot_period loot_probability = record {
    map_id = map_id;
    loot_generator =
        make_loot_generator (f.truncate (f.mul loot_period (f.of_int (pos 1000))))
          (to_double loot_probability);
    players = [];
    loots_info = [];
    player_id = pos 0;
    map = none;
    loot_id = pos 0;
    allocated = 0;
  }

module _ {F : Type 0} where
  abbrev pub has_name : String → Player F → Bool
  has_name name p = str_eq p.name name

  abbrev pub has_token : String → Player F → Bool
  has_token token p = str_eq p.token token
