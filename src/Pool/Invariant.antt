-- ===== src/Pool/Invariant.antt =====
-- What holds of a pool and its threads in every state that they can reach.
use mathlib.Core.List.{Permᴰ}
use mathlib.Core.List.Permᴰ
use dog_game_cpp.Common.{
  ℕ, suc, ◌+◌, ◌≤◌, ◌≡◌, refl, sym, ap, ◌∙◌, subst, ◌⊎◌, inl, inr, List, [], ◌∷◌, ◌++◌, map, Option,
  some, true, false, arith, ok, length, length-append, ok_injective, Result,
}
use dog_game_cpp.Pool.{ConnectionPool, has_free, take, return_connection}
use dog_game_cpp.Pool.System.{
  System, Call, get, wait, wake, Progress, get_awake, wait_again, release, drop, notify,
  notify_nobody, start, Reach, here, call, progress,
}
use dog_game_cpp.Pool.Slots.{
  pool_of, has_free-pool_of, take-pool_of, return_connection-pool_of, created, make_pool-pool_of,
  held_parts, all_hold,
}

module _ {C : Type 0} where
  Permᴰ-middle : (xs : List C) (c : C) (ys : List C) → Permᴰ (xs ++ c ∷ ys) (c ∷ xs ++ ys)
  Permᴰ-middle [] c ys = Permᴰ.refl _
  Permᴰ-middle (x ∷ xs) c ys =
      Permᴰ.trans (Permᴰ.cons refl (Permᴰ-middle xs c ys)) (Permᴰ.swap refl refl)

  -- The wrappers hold the connections `hs` and the pool the connections `free`, in the right places;
  -- together they are the connections that were made; and if a thread waits, there are enough calls
  -- of `notify_one` to come and threads awake for the connections that are free.
  pub record IsSound (cs : List C) (s : System C) : Type 0 where
    pub hs : List C
    pub free : List C
    pub held_are : s.held ≡ map some hs
    pub pool_is : s.pool ≡ pool_of (length hs) free
    pub whole : Permᴰ (hs ++ free) cs
    pub woken : (s.waiting ≡ 0) ⊎ (length free ≤ s.notices + s.awake)

  -- Taking from a pool with a free connection gives one.
  taken :
      (used : ℕ) (free : List C) {pool : ConnectionPool C} {conn : Option C} {p : ConnectionPool C}
      → pool ≡ pool_of used free
      → has_free pool ≡ true
      → take pool ≡ ok (conn, p)
      → (c : C) × (rest : List C) × (free ≡ c ∷ rest)
        × (conn ≡ some c)
        × (p ≡ pool_of (suc used) rest)
  taken used [] e h t = absurd (ground (arith, rw e at h, has_free-pool_of {C = C} used []))
  taken used (c ∷ rest) {conn = conn} {p = p} e h t =
      let q : ◌≡◌ {A = Result (Option C × ConnectionPool C)} (ok (some c, pool_of (suc used) rest))
          (ok (conn, p)) =
        sym (take-pool_of used c rest) ∙ ap take (sym e) ∙ t in
      let r = ok_injective q in (c, rest, refl, ap (λ x. x.0) (sym r), ap (λ x. x.1) (sym r))

  pub none_free :
      (used : ℕ) (free : List C) {pool : ConnectionPool C}
      → pool ≡ pool_of used free
      → has_free pool ≡ false
      → length free ≡ 0
  none_free used free e h = ground (arith, rw e at h, has_free-pool_of used free)

  after_take :
      (cs hs : List C) (c : C) (rest : List C)
      → Permᴰ (hs ++ c ∷ rest) cs
      → Permᴰ ((c ∷ hs) ++ rest) cs
  after_take cs hs c rest p = Permᴰ.trans (Permᴰ.symm (Permᴰ-middle hs c rest)) p

  Call-IsSound : {cs : List C} {s t : System C} → Call s t → IsSound cs s → IsSound cs t
  Call-IsSound {cs} {s} {t} (get {conn} {p} f k e) v =
      let (c, rest, q, is_c, is_p) = taken (length v.hs) v.free v.pool_is f k in
      subst (IsSound cs) (sym e) (record {
        hs = c ∷ v.hs;
        free = rest;
        held_are = ap (λ x. x ∷ s.held) is_c ∙ ap (λ x. some c ∷ x) v.held_are;
        pool_is = is_p;
        whole = after_take cs v.hs c rest (subst (λ x. Permᴰ (v.hs ++ x) cs) q v.whole);
        woken = ground (arith, v.woken, ap length q);
      })
  Call-IsSound {cs} {s} {t} (wait f e) v = subst (IsSound cs) (sym e) (record {
    hs = v.hs;
    free = v.free;
    held_are = v.held_are;
    pool_is = v.pool_is;
    whole = v.whole;
    woken = inr (omega (arith, none_free (length v.hs) v.free v.pool_is f));
  })
  Call-IsSound {cs} {s} {t} (wake {n} k e) v = subst (IsSound cs) (sym e) (record {
    hs = v.hs;
    free = v.free;
    held_are = v.held_are;
    pool_is = v.pool_is;
    whole = v.whole;
    woken = ground (arith, v.woken, k);
  })

  moved :
      (left : List C) (c : C) (right free : List C)
      → Permᴰ (c ∷ (left ++ right) ++ free) ((left ++ c ∷ right) ++ free)
  moved [] c right free = Permᴰ.refl _
  moved (x ∷ left) c right free =
      Permᴰ.trans (Permᴰ.swap refl refl) (Permᴰ.cons refl (moved left c right free))

  Progress-IsSound : {cs : List C} {s t : System C} → Progress s t → IsSound cs s → IsSound cs t
  Progress-IsSound {cs} {s} {t} (get_awake {n} {conn} {p} k f g e) v =
      let (c, rest, q, is_c, is_p) = taken (length v.hs) v.free v.pool_is f g in
      subst (IsSound cs) (sym e) (record {
        hs = c ∷ v.hs;
        free = rest;
        held_are = ap (λ x. x ∷ s.held) is_c ∙ ap (λ x. some c ∷ x) v.held_are;
        pool_is = is_p;
        whole = after_take cs v.hs c rest (subst (λ x. Permᴰ (v.hs ++ x) cs) q v.whole);
        woken = ground (arith, v.woken, k, ap length q);
      })
  Progress-IsSound {cs} {s} {t} (wait_again {n} k f e) v = subst (IsSound cs) (sym e) (record {
    hs = v.hs;
    free = v.free;
    held_are = v.held_are;
    pool_is = v.pool_is;
    whole = v.whole;
    woken = inr (omega (arith, none_free (length v.hs) v.free v.pool_is f));
  })
  Progress-IsSound {cs} {s} {t} (release before after c {p} h r e) v =
      let split = held_parts v.hs before after c (sym v.held_are ∙ h) in
      let size : length v.hs ≡ suc (length (split.left ++ split.right)) = omega (
        arith,
        ap length split.all_are,
        length-append split.left (c ∷ split.right),
        length-append split.left split.right,
      ) in
      let back : ◌≡◌ {A = Result (ConnectionPool C)}
          (ok (pool_of (length (split.left ++ split.right)) (c ∷ v.free))) (ok p) =
        sym (return_connection-pool_of (length (split.left ++ split.right)) c v.free)
        ∙ ap (λ k. return_connection (pool_of k v.free) (some c)) (sym size)
        ∙ ap (λ x. return_connection x (some c)) (sym v.pool_is)
        ∙ r in
      subst (IsSound cs) (sym e) (record {
        hs = split.left ++ split.right;
        free = c ∷ v.free;
        held_are = split.rest_are;
        pool_is = sym (ok_injective back);
        whole = Permᴰ.trans (Permᴰ-middle (split.left ++ split.right) c v.free) (
            Permᴰ.trans (moved split.left c split.right v.free)
              (subst (λ x. Permᴰ (x ++ v.free) cs) split.all_are v.whole));
        woken = ground (arith, v.woken);
      })
  Progress-IsSound {cs} {s} {t} (drop before after h e) v =
      absurd (all_hold v.hs before after (sym v.held_are ∙ h))
  Progress-IsSound {cs} {s} {t} (notify {n} {m} k w e) v = subst (IsSound cs) (sym e) (record {
    hs = v.hs;
    free = v.free;
    held_are = v.held_are;
    pool_is = v.pool_is;
    whole = v.whole;
    woken = ground (arith, v.woken, k, w);
  })
  Progress-IsSound {cs} {s} {t} (notify_nobody {n} k w e) v = subst (IsSound cs) (sym e) (record {
    hs = v.hs;
    free = v.free;
    held_are = v.held_are;
    pool_is = v.pool_is;
    whole = v.whole;
    woken = inl w;
  })

  start-IsSound :
      (capacity : ℕ) (connection_factory : ℕ → C)
      → IsSound (created connection_factory 0 capacity) (start capacity connection_factory)
  start-IsSound capacity connection_factory = record {
    hs = [];
    free = created connection_factory 0 capacity;
    held_are = refl;
    pool_is = make_pool-pool_of capacity connection_factory;
    whole = Permᴰ.refl _;
    woken = inl refl;
  }

  -- In every state that the threads can reach, each wrapper holds a connection, and those in the
  -- wrappers and those in the pool are together exactly the connections that the constructor made:
  -- none is lost, and none is held twice. The pool counts the wrappers right, and if a thread waits,
  -- every free connection has a `notify_one` to come or a thread that is awake.
  pub Reach-IsSound :
      (capacity : ℕ) (connection_factory : ℕ → C) {s : System C}
      → Reach (start capacity connection_factory) s
      → IsSound (created connection_factory 0 capacity) s
  Reach-IsSound capacity connection_factory here = start-IsSound capacity connection_factory
  Reach-IsSound capacity connection_factory (call r st) =
      Call-IsSound st (Reach-IsSound capacity connection_factory r)
  Reach-IsSound capacity connection_factory (progress r st) =
      Progress-IsSound st (Reach-IsSound capacity connection_factory r)
