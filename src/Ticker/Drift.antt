-- ===== src/Ticker/Drift.antt =====
-- How far the ticks of src/network/ticker.h fall behind the clock.
use Prim.Native.Nat.{◌/◌}
use dog_game_cpp.Common.{ℕ, ◌+◌, ◌-◌, ◌*◌, ◌^◌, ◌≤◌, ◌<◌, List, [], ◌∷◌, length, arith}
use dog_game_cpp.Ticker.{Ticker, on_tick, run_ticks}

abbrev pub sum : List ℕ → ℕ
sum [] = 0
sum (x ∷ xs) = x + sum xs

-- A clock that does not run backwards.
abbrev pub IsSteady : ℕ → List ℕ → Type 0
IsSteady last [] = Unit
IsSteady last (now ∷ times) = (last ≤ now) × IsSteady now times

one_tick :
    (last now : ℕ)
    → last ≤ now
    → ((now - last) / 10 ^ 6 * 10 ^ 6 ≤ now - last)
      × (now - last < ((now - last) / 10 ^ 6 + 1) * 10 ^ 6)
one_tick last now h = (omega arith, omega arith)

-- On a clock that does not run backwards: the milliseconds that the handler has got in all are never
-- more than the time that went by since the start, and less than that by less than one millisecond, that
-- is by at most 999999 nanoseconds, for each tick.
pub run_ticks_lem :
    (times : List ℕ) (t : Ticker)
    → IsSteady t.last_tick times
    → (t.last_tick ≤ (run_ticks times t).1.last_tick)
      × (sum (run_ticks times t).0 * 10 ^ 6 ≤ (run_ticks times t).1.last_tick - t.last_tick)
      × ((run_ticks times t).1.last_tick - t.last_tick
          ≤ sum (run_ticks times t).0 * 10 ^ 6 + length times * (10 ^ 6 - 1))
unfolding run_ticks on_tick
run_ticks_lem [] t h = (omega arith, omega arith, omega arith)
run_ticks_lem (now ∷ times) t (h, hs) =
    let t' : Ticker = record t { last_tick = now } in
    let (a, b, c) = run_ticks_lem times t' hs in
    let (p, q) = one_tick t.last_tick now h in (omega arith, omega arith, omega arith)
