-- ===== src/Api/Play.antt =====
-- What the handlers of src/network/api_handler.cpp and the ticker of src/network/api_handler.h do to
-- the game, as a step relation: a player joins, a dog turns, a time passes.
use dog_game_cpp.Common.{◌≡◌, ℕ, ℤ, String, ok, ◌>>=◌}
use dog_game_cpp.Float.{Float}
use dog_game_cpp.DataTypes.{DogDirection}
use dog_game_cpp.Collision.{EventSort}
use dog_game_cpp.LootGenerator.{Double}
use dog_game_cpp.Session.Looting.{LootDraw}
use dog_game_cpp.Game.Data.{Game, TokenGenerator}
use dog_game_cpp.Game.{add_player, generate_loot, move_dogs}
use dog_game_cpp.Api.{steer}

module _ {F D G : Type 0} ⦃f : Float F⦄ ⦃d : Double D⦄ ⦃sort : EventSort F⦄ ⦃t : TokenGenerator G⦄
    (to_double : F → D) (draws : ℕ → ℕ → LootDraw F) where
  pub data Play (g : Game F D G) : Game F D G → Type 0 where
    stay : Play g g
    -- `Game::add_player`
    join :
        (id name : String) {g' : Game F D G} {who : String × ℤ}
        → add_player to_double g id name ≡ ok (g', who)
        → Play g g'
    -- `Dog::set_speed` of the player with the token
    turn : (token : String) (dir : DogDirection) (speed : F) → Play g (steer g token dir speed)
    -- `Game::GenerateLoot` and then `Game::MoveDogs`
    round :
        (delta_time : ℤ) {g' : Game F D G}
        → (generate_loot draws g delta_time >>= λ x. move_dogs x delta_time) ≡ ok g'
        → Play g g'

module _ {F D G W : Type 0} ⦃f : Float F⦄ ⦃d : Double D⦄ ⦃sort : EventSort F⦄ ⦃t : TokenGenerator G⦄
    (to_double : F → D) (draws : W → ℕ → ℕ → LootDraw F) where
  -- Any number of them, the latest last, each with random numbers of its own.
  pub data Plays (g : Game F D G) : Game F D G → Type 0 where
    start : Plays g g
    next :
        {g' g'' : Game F D G} → Plays g g' → (w : W) → Play to_double (draws w) g' g'' → Plays g g''
