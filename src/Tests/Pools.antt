-- ===== src/Tests/Pools.antt =====
-- The theorems on the pool of connections at concrete values.
use dog_game_cpp.Common.{ℕ, refl, [], ◌∷◌, some, none}
use dog_game_cpp.Pool.{ConnectionPool, fill, make_pool, has_free, take}
use dog_game_cpp.Pool.System.{System, Progress, Reach, start, get, wait, here, call}
use dog_game_cpp.Pool.Slots.{created}
use dog_game_cpp.Pool.Invariant.{IsSound, Reach-IsSound}

-- A pool of one connection, which is held while a second thread waits for it.
abbrev held_pool : ConnectionPool ℕ
held_pool = record { slots = none ∷ []; used_connections = 1 }

abbrev one_waits : System ℕ
one_waits = record { pool = held_pool; held = some 7 ∷ []; waiting = 1; awake = 0; notices = 0 }

abbrev one_free : ConnectionPool ℕ
one_free = record { slots = some 7 ∷ []; used_connections = 0 }

abbrev one_holds : System ℕ
one_holds = record { pool = held_pool; held = some 7 ∷ []; waiting = 0; awake = 0; notices = 0 }

abbrev at_rest : System ℕ
at_rest = record { pool = one_free; held = []; waiting = 0; awake = 0; notices = 0 }

abbrev given_back : System ℕ
given_back = record { pool = one_free; held = []; waiting = 0; awake = 0; notices = 1 }

one_takes : Reach (start 1 (λ (i : ℕ). 7)) one_holds
unfolding make_pool fill take has_free
one_takes = call here (get {conn = some 7} {p = held_pool} refl refl refl)

two_threads : Reach (start 1 (λ (i : ℕ). 7)) one_waits
unfolding has_free
two_threads = call one_takes (wait refl refl)

nothing_lost : IsSound (created (λ (i : ℕ). 7) 0 1) one_waits
nothing_lost = Reach-IsSound 1 (λ (i : ℕ). 7) two_threads
