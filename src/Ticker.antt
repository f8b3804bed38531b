-- ===== src/Ticker.antt =====
-- `Ticker` of src/network/ticker.h and the ticker of `ApiHandler` in src/network/api_handler.h. A time
-- point of `std::chrono::steady_clock` is a number of nanoseconds; the times are what the clock says.
pub mod Drift
use Prim.Native.Nat.{◌/◌}
use dog_game_cpp.Common.{
  ℕ, ◌-◌, ◌^◌, ℤ, pos, to_int, Bool, true, false, List, [], ◌∷◌, Option, some, none, if◌then◌else◌,
  ltb_ℤ, Result, ok, ◌>>=◌,
}
use dog_game_cpp.Float.{Float}
use dog_game_cpp.Collision.{EventSort}
use dog_game_cpp.LootGenerator.{Double}
use dog_game_cpp.Session.Looting.{LootDraw}
use dog_game_cpp.Game.Data.{Game}
use dog_game_cpp.Game.{generate_loot, move_dogs}
use dog_game_cpp.Api.Data.{ApiHandler}

pub record Ticker : Type 0 where
  pub period : ℤ
  pub last_tick : ℕ
  pub has_started : Bool

unfoldable pub make_ticker : ℤ → Ticker
make_ticker period = record { period = period; last_tick = 0; has_started = false }

unfoldable pub start_ticker : ℕ → Ticker → Ticker
start_ticker now t = record t { last_tick = now; has_started = true }

-- `OnTick`, which does not look at the error code: the milliseconds that the handler gets.
unfoldable pub on_tick : ℕ → Ticker → ℕ × Ticker
on_tick current_tick t =
    ((current_tick - t.last_tick) / 10 ^ 6, record t { last_tick = current_tick })

-- `ScheduleTick` again and again, with the times at which the timer ends.
unfoldable pub run_ticks : List ℕ → Ticker → List ℕ × Ticker
run_ticks [] t = ([], t)
run_ticks (now ∷ times) t =
    let (delta, t') = on_tick now t in
    let (deltas, t'') = run_ticks times t' in (delta ∷ deltas, t'')

-- The constructor of `ApiHandler`.
unfoldable pub make_api_handler : {F D G : Type 0} → Game F D G → ApiHandler F D G
make_api_handler game = record {
  game = game;
  ticker = if ltb_ℤ (pos 0) game.tick_period then some false else none;
}

-- The handler of its ticker.
unfoldable pub tick_game :
    {F D G : Type 0} ⦃f : Float F⦄ ⦃d : Double D⦄ ⦃s : EventSort F⦄
    → (ℕ → ℕ → LootDraw F)
    → Game F D G
    → ℕ
    → Result (Game F D G)
tick_game draws game ticks =
    generate_loot draws game (to_int (pos ticks)) >>= λ g. move_dogs g (to_int (pos ticks))
