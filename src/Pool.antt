-- ===== src/Pool.antt =====
-- src/db/connection_engine.h: the pool of connections to the data base, `class ConnectionPool`. A
-- connection is a value of a parameter `C`; a `std::shared_ptr` that was moved from is `none`. System
-- has the threads that share a pool.
pub mod System
pub mod Slots
pub mod Invariant
pub mod Progress
pub mod Singleton
use dog_game_cpp.Common.{
  ℕ, zero, suc, ◌-◌, pos, Bool, List, [], ◌∷◌, Option, some, none, if◌then◌else◌, ltb, ◌==◌, Result,
  ok, err, ◌>>=◌, at, length, set, assertion_failed,
}

pub record ConnectionPool (C : Type 0) : Type 0 where
  pub slots : List (Option C)
  pub used_connections : ℕ

module _ {C : Type 0} where
  -- The loop of the constructor from `i` on: call `i` of the factory gives `connection_factory i`.
  unfoldable pub fill : (ℕ → C) → ℕ → ℕ → List (Option C)
  fill connection_factory i zero = []
  fill connection_factory i (suc n) =
      some (connection_factory i) ∷ fill connection_factory (suc i) n

  unfoldable pub make_pool : ℕ → (ℕ → C) → ConnectionPool C
  make_pool capacity connection_factory = record {
    slots = fill connection_factory 0 capacity;
    used_connections = 0;
  }

  -- The predicate that `GetConnection` waits for.
  unfoldable pub has_free : ConnectionPool C → Bool
  has_free p = ltb p.used_connections (length p.slots)

  -- `GetConnection` after the wait: the pointer that the wrapper gets, and the pool.
  unfoldable pub take : ConnectionPool C → Result (Option C × ConnectionPool C)
  take p = do
    conn ← at p.slots (pos p.used_connections)
    let p' : ConnectionPool C = record {
      slots = set p.slots p.used_connections none;
      used_connections = suc p.used_connections;
    }
    ok (conn, p')

  -- `ReturnConnection` under the lock; a failed `assert` is `err assertion_failed`.
  unfoldable pub return_connection : ConnectionPool C → Option C → Result (ConnectionPool C)
  return_connection p conn =
      if p.used_connections == 0
      then err assertion_failed
      else ok (record {
        slots = set p.slots (p.used_connections - 1) conn;
        used_connections = p.used_connections - 1;
      })
