-- ===== src/Tests/Threads.antt =====
-- The theorem on the threads of the program and their connections at concrete values.
use dog_game_cpp.Common.{ℕ, ◌≡◌, refl, true, [], ◌∷◌, some, none, arith, ok}
use dog_game_cpp.Main.{started_threads, run_workers}
use dog_game_cpp.Pool.{ConnectionPool, fill, make_pool, has_free, take}
use dog_game_cpp.Pool.System.{System, Reach, get, here, call}
use dog_game_cpp.Pool.Singleton.{singleton_capacity, singleton, singleton-has_free}

-- Two connections, of which the first is given out.
abbrev one_of_two : ConnectionPool ℕ
one_of_two = record { slots = none ∷ some 1 ∷ []; used_connections = 1 }

abbrev first_holds : System ℕ
first_holds = record { pool = one_of_two; held = some 0 ∷ []; waiting = 0; awake = 0; notices = 0 }

first_takes : Reach (singleton 2 (λ (i : ℕ). i)) first_holds
unfolding singleton singleton_capacity make_pool fill take has_free
first_takes = call here (get {conn = some 0} {p = one_of_two} refl refl refl)

second_need_not_wait :
    (c : ℕ) × (p : ConnectionPool ℕ) × (has_free one_of_two ≡ true)
    × (take one_of_two ≡ ok (some c, p))
unfolding run_workers started_threads
second_need_not_wait = singleton-has_free 2 (λ (i : ℕ). i) first_takes (omega arith)
