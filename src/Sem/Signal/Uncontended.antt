-- ===== src/Sem/Signal/Uncontended.antt =====
-- rt_sem_signal of a resource that no other task waits for (src/ipc/sem/sem.c).
use rtai.Base.{
  ℕ, ◌≡◌, refl, sym, subst, ◌∙◌, [], arith, true, false, Bool-cases, inl, inr, ==_self, none, some,
}
use rtai.Base.Int.{pos, ltb_ℤ, eq_ℤ, ◌-ℤ◌}
use rtai.Kernel.{Kernel, nobody, task, set_sem}
use rtai.Prio.{dequeue_resqel_reset_task_priority}
use rtai.Prio.Quiet.{dequeue_resqel-Quiet}
use rtai.Sem.{count_up, owner_of, head?, owned_by, is_owner}
use rtai.Sem.Signal.Balance.{queue-counted}
use rtai.Sem.Signal.{counted, suspend_or_delete, give_back, signal_waiter, rt_sem_signal}

-- The running task holds the lock at its first level, and nobody waits.
pub record Held (s : ℕ) (k : Kernel) : Type 0 where
  pub valid : (k.sems s).magic ≡ true
  pub level : (k.sems s).type ≡ pos 1
  pub owner : (k.sems s).owndby ≡ task k.current
  pub alone : (k.sems s).queue ≡ []

-- the lock given back
unfoldable pub given_back : ℕ → Kernel → Kernel
given_back s k = set_sem s (record ((counted s k).sems s) { owndby = nobody }) (counted s k)

module _ (rt_schedule : Kernel → Kernel) (rt_task_delete : ℕ → Kernel → Kernel) where
  signal_waiter-give_back :
      (s : ℕ) (k : Kernel)
      → (k.sems s).queue ≡ []
      → signal_waiter rt_schedule rt_task_delete s (counted s k)
        ≡ give_back rt_schedule rt_task_delete s none false (counted s k)
  unfolding signal_waiter head?
  signal_waiter-give_back s k e = rw (signal_waiter, queue-counted s k, e) refl

  rt_sem_signal-give_back :
      (s : ℕ) (k : Kernel)
      → Held s k
      → rt_sem_signal rt_schedule rt_task_delete s k
        ≡ give_back rt_schedule rt_task_delete s none false (counted s k)
  unfolding rt_sem_signal owned_by is_owner
  rt_sem_signal-give_back s k h = elim (Bool-cases (eq_ℤ (k.sems s).restype (pos 0))) [
    | inl e ↦
        rw (rt_sem_signal, h.valid, h.level, h.owner, ==_self k.current, e)
          (signal_waiter-give_back s k h.alone)
    | inr e ↦
        rw (rt_sem_signal, h.valid, h.level, h.owner, ==_self k.current, e)
          (signal_waiter-give_back s k h.alone)
  ]

  give_back-free :
      (s : ℕ) (k : Kernel)
      → ltb_ℤ (pos 0) (k.sems s).type ≡ true
      → let d =
          dequeue_resqel_reset_task_priority k.current
            (set_sem s (record (k.sems s) { owndby = nobody }) k) in
        (d.1.tasks k.current).suspdepth ≡ pos 0
        → d.0 ≡ false
        → give_back rt_schedule rt_task_delete s none false k ≡ some (pos 0, d.1)
  unfolding give_back suspend_or_delete owner_of
  give_back-free s k l d e = rw (d, l, e) refl

  give_back-none :
      (s : ℕ) (k : Kernel)
      → ltb_ℤ (pos 0) (k.sems s).type ≡ true
      → let d =
          dequeue_resqel_reset_task_priority k.current
            (set_sem s (record (k.sems s) { owndby = nobody }) k) in
        eq_ℤ (d.1.tasks k.current).suspdepth (pos 0) ≡ false
        → ltb_ℤ (pos 0) (d.1.tasks k.current).suspdepth ≡ false
        → give_back rt_schedule rt_task_delete s none false k ≡ none
  unfolding give_back suspend_or_delete owner_of
  give_back-none s k l d e = rw (d, e, l) refl

  counted-level : (s : ℕ) (k : Kernel) → Held s k → ltb_ℤ (pos 0) ((counted s k).sems s).type ≡ true
  unfolding counted count_up
  counted-level s k h = rw (==_self s, h.level) refl

  -- The lock is given back, if no priority changes by that and no suspension is pending.
  pub rt_sem_signal-Held :
      (s : ℕ) (k : Kernel)
      → Held s k
      → (k.tasks k.current).suspdepth ≡ pos 0
      → (dequeue_resqel_reset_task_priority k.current (given_back s k)).0 ≡ false
      → rt_sem_signal rt_schedule rt_task_delete s k
        ≡ some (pos 0, (dequeue_resqel_reset_task_priority k.current (given_back s k)).1)
  unfolding given_back counted
  rt_sem_signal-Held s k h d e =
      let quiet = dequeue_resqel-Quiet k.current (given_back s k) in
      rt_sem_signal-give_back s k h
      ∙ give_back-free s (counted s k) (counted-level s k h) (quiet.depth k.current ∙ d) e

  -- Where the deletion of the owner of a lock is pending, and no task waits for the lock, a signal
  -- reads through the pointer to the waiting task, which is NULL: the result is `none`.
  pub rt_sem_signal-none :
      (s : ℕ) (k : Kernel)
      → Held s k
      → ltb_ℤ (k.tasks k.current).suspdepth (pos 0) ≡ true
      → rt_sem_signal rt_schedule rt_task_delete s k ≡ none
  unfolding given_back counted
  rt_sem_signal-none s k h d =
      let quiet = dequeue_resqel-Quiet k.current (given_back s k) in
      let below = subst (λ z. ltb_ℤ z (pos 0) ≡ true) (sym (quiet.depth k.current)) d in
      rt_sem_signal-give_back s k h
      ∙ give_back-none s (counted s k) (counted-level s k h) (ground (arith, below))
          (ground (arith, below))

  -- One level less of a lock that the running task has taken more than once.
  pub rt_sem_signal-deeper :
      (s : ℕ) (k : Kernel)
      → (k.sems s).magic ≡ true
      → ltb_ℤ (pos 1) (k.sems s).type ≡ true
      → (k.sems s).owndby ≡ task k.current
      → rt_sem_signal rt_schedule rt_task_delete s k
        ≡ some (pos 0, set_sem s (record (k.sems s) { type = (k.sems s).type -ℤ pos 1 }) k)
  unfolding rt_sem_signal owned_by is_owner
  rt_sem_signal-deeper s k v l o =
      let e : eq_ℤ (k.sems s).type (pos 0) ≡ false = ground (arith, l) in
      elim (Bool-cases (eq_ℤ (k.sems s).restype (pos 0))) [
        | inl f ↦ rw (v, o, ==_self k.current, e, f, l) refl
        | inr f ↦ rw (v, o, ==_self k.current, e, f, l) refl
      ]
