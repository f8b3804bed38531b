-- ===== src/Pool/Singleton.antt =====
-- `ConnectionPoolSingleton` of src/db/connection_engine.h: the pool that the threads of src/main.cpp
-- share.
use Prim.Native.Nat.{max}
use dog_game_cpp.Common.{
  ℕ, zero, suc, ◌<◌, ◌≡◌, refl, ap, ◌∙◌, true, List, [], ◌∷◌, some, arith, ok, length,
  length-append,
}
use dog_game_cpp.Main.{started_threads, run_workers}
use dog_game_cpp.DataBase.Slices.{length-Permᴰ, length-map}
use dog_game_cpp.Pool.{ConnectionPool, has_free, take}
use dog_game_cpp.Pool.System.{System, start, Reach}
use dog_game_cpp.Pool.Slots.{pool_of, has_free-pool_of, take-pool_of, created}
use dog_game_cpp.Pool.Invariant.{Reach-IsSound}

-- The capacity that the constructor of the singleton asks for.
unfoldable pub singleton_capacity : ℕ → ℕ
singleton_capacity hardware_concurrency = max 1 hardware_concurrency

-- The pool of the singleton and no thread in it.
unfoldable pub singleton : {C : Type 0} → ℕ → (ℕ → C) → System C
singleton hardware_concurrency connection_factory =
    start (singleton_capacity hardware_concurrency) connection_factory

started_threads-suc : (n : ℕ) → started_threads (suc n) ≡ n
unfolding started_threads
started_threads-suc zero = refl
started_threads-suc (suc n) = ap suc (started_threads-suc n)

run_workers-max : (n : ℕ) → run_workers n ≡ max 1 n
unfolding run_workers
run_workers-max zero = rw (started_threads-suc 0) refl
run_workers-max (suc n) = rw (started_threads-suc n) (omega arith)

length-created :
    {C : Type 0} (connection_factory : ℕ → C) (i n : ℕ)
    → length (created connection_factory i n) ≡ n
length-created connection_factory i zero = refl
length-created connection_factory i (suc n) = ap suc (length-created connection_factory (suc i) n)

free_one :
    {C : Type 0} (used : ℕ) (free : List C)
    → 0 < length free
    → (c : C) × (p : ConnectionPool C) × (has_free (pool_of used free) ≡ true)
      × (take (pool_of used free) ≡ ok (some c, p))
free_one used [] h = absurd (omega (arith, h))
free_one used (c ∷ free) h = (
  c,
  pool_of (suc used) free,
  has_free-pool_of used (c ∷ free) ∙ ground arith,
  take-pool_of used c free,
)

-- With the pool of the singleton, in every state that its threads can reach: where fewer wrappers are
-- alive than `RunWorkers` has threads run the server, as when each thread holds at most one connection
-- and the calling one none, `GetConnection` does not wait and gives a connection.
pub singleton-has_free :
    {C : Type 0} (hardware_concurrency : ℕ) (connection_factory : ℕ → C) {s : System C}
    → Reach (singleton hardware_concurrency connection_factory) s
    → length s.held < run_workers (max 1 hardware_concurrency)
    → (c : C) × (p : ConnectionPool C) × (has_free s.pool ≡ true) × (take s.pool ≡ ok (some c, p))
unfolding singleton singleton_capacity
singleton-has_free {C} hardware_concurrency connection_factory {s} r h =
    let n = max 1 hardware_concurrency in
    let v = Reach-IsSound n connection_factory r in
    let size_is = length-Permᴰ v.whole in
    let free : 0 < length v.free = omega (
      arith,
      h,
      run_workers-max n,
      size_is,
      length-created connection_factory 0 n,
      length-append v.hs v.free,
      ap length v.held_are,
      length-map {A = C} some v.hs,
    ) in
    rw v.pool_is (free_one (length v.hs) v.free free)
