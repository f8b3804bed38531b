-- ===== src/Pool/System.antt =====
-- Threads that share a pool. A step is what a thread does while it holds the mutex, or the call of
-- `notify_one` after it. `std::condition_variable` wakes a thread that waits on it, if there is one,
-- and may wake a thread for no reason.
use dog_game_cpp.Common.{ℕ, suc, ◌≡◌, true, false, List, [], ◌∷◌, ◌++◌, Option, some, none, ok}
use dog_game_cpp.Pool.{ConnectionPool, make_pool, has_free, take, return_connection}

-- `held` are the wrappers that are alive, with their pointers. `waiting` threads sleep in `wait`,
-- `awake` ones have been woken and have not looked at the predicate again, and `notices` calls of
-- `notify_one` are still to be made.
pub record System (C : Type 0) : Type 0 where
  pub pool : ConnectionPool C
  pub held : List (Option C)
  pub waiting : ℕ
  pub awake : ℕ
  pub notices : ℕ

module _ {C : Type 0} where
  -- What a new call of `GetConnection` does, and a wake-up for no reason.
  pub data Call (s t : System C) : Type 0 where
    get :
        {conn : Option C} {p : ConnectionPool C}
        → has_free s.pool ≡ true
        → take s.pool ≡ ok (conn, p)
        → t ≡ record s { pool = p; held = conn ∷ s.held }
        → Call s t
    wait : has_free s.pool ≡ false → t ≡ record s { waiting = suc s.waiting } → Call s t
    wake :
        {n : ℕ} → s.waiting ≡ suc n → t ≡ record s { waiting = n; awake = suc s.awake } → Call s t

  -- What the threads do that are inside a call already, but for being woken for no reason.
  pub data Progress (s t : System C) : Type 0 where
    get_awake :
        {n : ℕ} {conn : Option C} {p : ConnectionPool C}
        → s.awake ≡ suc n
        → has_free s.pool ≡ true
        → take s.pool ≡ ok (conn, p)
        → t ≡ record s { pool = p; held = conn ∷ s.held; awake = n }
        → Progress s t
    wait_again :
        {n : ℕ}
        → s.awake ≡ suc n
        → has_free s.pool ≡ false
        → t ≡ record s { waiting = suc s.waiting; awake = n }
        → Progress s t
    -- The destructor of a wrapper, with and without a connection.
    release :
        (before after : List (Option C)) (c : C) {p : ConnectionPool C}
        → s.held ≡ before ++ some c ∷ after
        → return_connection s.pool (some c) ≡ ok p
        → t ≡ record s { pool = p; held = before ++ after; notices = suc s.notices }
        → Progress s t
    drop :
        (before after : List (Option C))
        → s.held ≡ before ++ none ∷ after
        → t ≡ record s { held = before ++ after }
        → Progress s t
    notify :
        {n m : ℕ}
        → s.notices ≡ suc n
        → s.waiting ≡ suc m
        → t ≡ record s { notices = n; waiting = m; awake = suc s.awake }
        → Progress s t
    notify_nobody :
        {n : ℕ} → s.notices ≡ suc n → s.waiting ≡ 0 → t ≡ record s { notices = n } → Progress s t

  abbrev pub start : ℕ → (ℕ → C) → System C
  start capacity connection_factory = record {
    pool = make_pool capacity connection_factory;
    held = [];
    waiting = 0;
    awake = 0;
    notices = 0;
  }

  pub data Reach (s : System C) : System C → Type 0 where
    here : Reach s s
    call : {t u : System C} → Reach s t → Call t u → Reach s u
    progress : {t u : System C} → Reach s t → Progress t u → Reach s u

  -- So many steps of `Progress`, and so many wake-ups for no reason among them.
  pub data Run : ℕ → ℕ → System C → System C → Type 0 where
    done : {s : System C} → Run 0 0 s s
    then : {n k : ℕ} {s t u : System C} → Progress s t → Run n k t u → Run (suc n) k s u
    woken :
        {n k m : ℕ} {s t u : System C}
        → s.waiting ≡ suc m
        → t ≡ record s { waiting = m; awake = suc s.awake }
        → Run n k t u
        → Run n (suc k) s u
