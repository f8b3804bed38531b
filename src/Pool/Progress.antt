-- ===== src/Pool/Progress.antt =====
-- Threads that wait for a connection do not wait for ever.
use dog_game_cpp.Common.{
  ℕ, suc, ◌+◌, ◌*◌, ◌≤◌, ◌≡◌, sym, ap, subst, List, [], ◌∷◌, some, none, arith, length,
  length-append,
}
use dog_game_cpp.Pool.System.{
  System, Progress, get_awake, wait_again, release, drop, notify, notify_nobody, Reach, Run, done,
  then, woken, wake, call, progress,
}

module _ {C : Type 0} where
  -- A bound of the number of steps that the threads of a state can still make.
  abbrev pub measure : System C → ℕ
  measure s = 4 * s.awake + 3 * s.waiting + 3 * length s.held + 2 * s.notices

  abbrev Shrinks : System C → System C → Type 0
  Shrinks s t = suc (measure t) ≤ measure s

  Progress-measure : {s t : System C} → Progress s t → suc (measure t) ≤ measure s
  Progress-measure {s} (get_awake k f g e) = subst (Shrinks s) (sym e) (omega (arith, k))
  Progress-measure {s} (wait_again k f e) = subst (Shrinks s) (sym e) (omega (arith, k))
  Progress-measure {s} (release before after c h r e) = subst (Shrinks s) (sym e) (
      omega (arith, ap length h, length-append before (some c ∷ after), length-append before after))
  Progress-measure {s} (drop before after h e) =
      subst (Shrinks s) (sym e) (
        omega (arith, ap length h, length-append before (none ∷ after), length-append before after))
  Progress-measure {s} (notify k w e) = subst (Shrinks s) (sym e) (omega (arith, k, w))
  Progress-measure {s} (notify_nobody k w e) = subst (Shrinks s) (sym e) (omega (arith, k))

  pub Run-measure : {n k : ℕ} {s t : System C} → Run n k s t → n + measure t ≤ measure s + k
  Run-measure done = omega arith
  Run-measure (then st r) = omega (arith, Progress-measure st, Run-measure r)
  Run-measure {n} {k} {s} {t = u} (woken {k = k'} w e r) =
      let b = subst (λ x. n + measure u ≤ measure x + k') e (Run-measure r) in omega (arith, w, b)

  pub Reach-Run : {n k : ℕ} {s t u : System C} → Reach s t → Run n k t u → Reach s u
  Reach-Run r done = r
  Reach-Run r (then st run) = Reach-Run (progress r st) run
  Reach-Run r (woken w e run) = Reach-Run (call r (wake w e)) run

  -- Nobody is in a call, and no wrapper is alive.
  pub record IsServed (s : System C) : Type 0 where
    pub none_waits : s.waiting ≡ 0
    pub none_awake : s.awake ≡ 0
    pub none_held : s.held ≡ []
