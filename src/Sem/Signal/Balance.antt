-- ===== src/Sem/Signal/Balance.antt =====
-- rt_sem_signal returns and keeps the counts and the queues of all semaphores in balance
-- (src/ipc/sem/sem.c).
use rtai.Base.{
  ℕ, ◌≡◌, refl, ap, sym, subst, ◌∙◌, List, [], ◌∷◌, arith, length, Bool, true, false, Bool-cases,
  inl, inr, not, ◌&&◌, ◌||◌, ◌==◌, ==_self, Option, none, some,
}
use rtai.Base.Int.{ℤ, pos, ◌≤ℤ◌, ltb_ℤ, leb_ℤ, eq_ℤ, ◌-ℤ◌}
use rtai.Kernel.{Kernel, Sem, set_task, set_sem, unlink}
use rtai.Sched.{dequeue_blocked}
use rtai.Sched.Quiet.{Quiet, Quiet-refl, Quiet-trans, set_task-Quiet, rem_ready_current-Quiet}
use rtai.Prio.{dequeue_resqel_reset_task_priority}
use rtai.Prio.Quiet.{dequeue_resqel-Quiet}
use rtai.Sem.{count_up, release, owner_of, head?, minus_delayed, owned_by}
use rtai.Sem.Frames.{release-Quiet}
use rtai.Sem.Balance.{Balanced, count_up-Balanced, count_up-Balanced_nil}
use rtai.Sem.Signal.{
  suspend_current, counted, suspend_or_delete, give_back, signal_waiter, rt_sem_signal,
}

-- Every semaphore is balanced.
abbrev pub AllBalanced : Kernel → Type 0
AllBalanced k = (s : ℕ) → Balanced (k.sems s)

-- The service returns, in a state of which P holds.
abbrev pub Returns : (Kernel → Type 0) → Option (ℤ × Kernel) → Type 0
Returns P none = ⊥
Returns P (some r) = P r.1

pub Quiet-AllBalanced : {k k' : Kernel} → Quiet k k' → AllBalanced k → AllBalanced k'
Quiet-AllBalanced q b s = subst (λ f. Balanced (f s)) (sym q.sems) (b s)

pub set_sem-AllBalanced :
    (s : ℕ) (m : Sem) (k : Kernel) → AllBalanced k → Balanced m → AllBalanced (set_sem s m k)
set_sem-AllBalanced s m k b h j = elim (Bool-cases (s == j)) [ inl e ↦ rw e h | inr e ↦ rw e (b j) ]

-- A pending suspension of the running task, or none: not a pending deletion.
abbrev pub NotDeleted : Kernel → Type 0
NotDeleted k = pos 0 ≤ℤ (k.tasks k.current).suspdepth

suspend_current-Quiet : (c : ℕ) (k : Kernel) → Quiet k (suspend_current c k)
unfolding suspend_current
suspend_current-Quiet c k = Quiet-trans (set_task-Quiet c _ k refl) (rem_ready_current-Quiet c _)

release-AllBalanced :
    (t s : ℕ) (q : List ℕ) (k : Kernel)
    → AllBalanced k
    → (k.sems s).queue ≡ t ∷ q
    → AllBalanced (release t s (counted s k)).1
unfolding counted dequeue_blocked unlink count_up
release-AllBalanced t s q k b e = Quiet-AllBalanced (release-Quiet t s (counted s k)) (λ j.
    elim (Bool-cases (s == j)) [
      | inl f ↦ rw (f, ==_self s, e, ==_self t) (count_up-Balanced (k.sems s) q (b s) (ap length e))
      | inr f ↦ rw f (b j)
    ])

counted-AllBalanced :
    (s : ℕ) (k : Kernel) → AllBalanced k → (k.sems s).queue ≡ [] → AllBalanced (counted s k)
unfolding counted
counted-AllBalanced s k b e = set_sem-AllBalanced s _ k b (count_up-Balanced_nil (k.sems s) (b s) e)

pub queue-counted : (s : ℕ) (k : Kernel) → ((counted s k).sems s).queue ≡ (k.sems s).queue
unfolding counted count_up
queue-counted s k = rw (==_self s) refl

NotDeleted-counted : (s : ℕ) (k : Kernel) → NotDeleted k → NotDeleted (counted s k)
unfolding counted
NotDeleted-counted s k h = h

NotDeleted-Quiet : {k k' : Kernel} → Quiet k k' → NotDeleted k → NotDeleted k'
NotDeleted-Quiet {k' = k'} q h =
    subst (λ z. pos 0 ≤ℤ z) (sym (ap (λ c. (k'.tasks c).suspdepth) q.current ∙ q.depth _)) h

NotDeleted-release : (t s : ℕ) (k : Kernel) → NotDeleted k → NotDeleted (release t s k).1
unfolding dequeue_blocked
NotDeleted-release t s k h =
    NotDeleted-Quiet (release-Quiet t s k)
      (elim (Bool-cases (t == k.current)) [ inl e ↦ ground (arith, h) | inr e ↦ rw e h ])

module _ (rt_schedule : Kernel → Kernel) (rt_task_delete : ℕ → Kernel → Kernel) where
  pub suspend_or_delete-Quiet :
      (w : Option ℕ) (sched : Bool) (c : ℕ) (k : Kernel)
      → pos 0 ≤ℤ (k.tasks c).suspdepth
      → (x : Bool × Kernel) × (suspend_or_delete rt_schedule rt_task_delete w sched c k ≡ some x)
        × Quiet k x.1
  unfolding suspend_or_delete
  suspend_or_delete-Quiet w sched c k h = elim (Bool-cases (eq_ℤ (k.tasks c).suspdepth (pos 0))) [
    | inl e ↦ ((sched, k), rw e refl, Quiet-refl k)
    | inr e ↦
        let p : ltb_ℤ (pos 0) (k.tasks c).suspdepth ≡ true = ground arith in
        ((true, suspend_current c k), rw (e, p) refl, suspend_current-Quiet c k)
  ]

  give_back-AllBalanced :
      ((k : Kernel) → AllBalanced k → AllBalanced (rt_schedule k))
      → (s : ℕ) (w : Option ℕ) (to : Bool) (k : Kernel) → AllBalanced k
      → NotDeleted k
      → Returns AllBalanced (give_back rt_schedule rt_task_delete s w to k)
  unfolding give_back
  give_back-AllBalanced env s w to k b h =
      let c = k.current in
      let k₁ : Kernel = set_sem s (record (k.sems s) { owndby = owner_of w }) k in
      let d = dequeue_resqel_reset_task_priority c k₁ in
      let quiet = dequeue_resqel-Quiet c k₁ in
      let b₁ : AllBalanced k₁ =
        set_sem-AllBalanced s _ k b (record { waiters = (b s).waiters; capped = (b s).capped }) in
      let o =
        suspend_or_delete-Quiet w d.0 c d.1 (subst (λ z. pos 0 ≤ℤ z) (sym (quiet.depth c)) h) in
      elim (Bool-cases (ltb_ℤ (pos 0) (k.sems s).type)) [
        | inr e ↦ rw e b
        | inl e ↦
            let b₂ : AllBalanced o.0.1 = Quiet-AllBalanced (Quiet-trans quiet o.2) b₁ in
            rw (e, o.1)
              (elim (Bool-cases (o.0.0 || to)) [ inl f ↦ rw f (env o.0.1 b₂) | inr f ↦ rw f b₂ ])
      ]

  signal_waiter-AllBalanced :
      ((k : Kernel) → AllBalanced k → AllBalanced (rt_schedule k))
      → (s : ℕ) (k : Kernel) → AllBalanced k
      → NotDeleted k
      → (q : List ℕ) → (k.sems s).queue ≡ q
      → Returns AllBalanced (signal_waiter rt_schedule rt_task_delete s (counted s k))
  unfolding signal_waiter head?
  signal_waiter-AllBalanced env s k b h [] e =
      rw (signal_waiter, queue-counted s k, e)
        (give_back-AllBalanced env s none false (counted s k) (counted-AllBalanced s k b e)
          (NotDeleted-counted s k h))
  signal_waiter-AllBalanced env s k b h (t ∷ q) e =
      let r = release t s (counted s k) in
      let x = r.1.tasks t in
      let k₂ : Kernel = set_task t (record x { running = minus_delayed x.state }) r.1 in
      let b₁ = release-AllBalanced t s q k b e in
      let d₁ = NotDeleted-release t s (counted s k) (NotDeleted-counted s k h) in
      let quiet = set_task-Quiet t (record x { running = minus_delayed x.state }) r.1 refl in
      rw (signal_waiter, queue-counted s k, e)
        (elim (Bool-cases r.0) [
          | inr f ↦ rw f (give_back-AllBalanced env s (some t) false r.1 b₁ d₁)
          | inl f ↦ elim (Bool-cases (leb_ℤ (r.1.sems s).type (pos 0))) [
            | inl g ↦ rw (f, g) (env r.1 b₁)
            | inr g ↦
                rw (f, g)
                  (give_back-AllBalanced env s (some t) true k₂ (Quiet-AllBalanced quiet b₁)
                    (NotDeleted-Quiet quiet d₁))
          ]
        ])

  -- Where all semaphores are in balance, where rt_schedule() keeps them so, and where the running
  -- task is not to be deleted, rt_sem_signal returns, and all semaphores are in balance again: as
  -- many tasks wait as the count is below 0, and no semaphore but a counting one counts above 1.
  pub rt_sem_signal-AllBalanced :
      ((k : Kernel) → AllBalanced k → AllBalanced (rt_schedule k))
      → (s : ℕ) (k : Kernel) → AllBalanced k
      → NotDeleted k
      → Returns AllBalanced (rt_sem_signal rt_schedule rt_task_delete s k)
  unfolding rt_sem_signal owned_by ◌-ℤ◌
  rt_sem_signal-AllBalanced env s k b h =
      let m = k.sems s in
      elim (Bool-cases m.magic) [
        | inr e ↦ rw e b
        | inl e ↦
            elim (Bool-cases (
              not (eq_ℤ m.type (pos 0))
              && not (eq_ℤ m.restype (pos 0))
              && not (owned_by m k.current))) [
                | inl f ↦ rw (e, f) b
                | inr f ↦ elim (Bool-cases (ltb_ℤ (pos 1) m.type)) [
                  | inl g ↦
                      rw (e, f, g)
                        (set_sem-AllBalanced s _ k b (record {
                          waiters = (b s).waiters;
                          capped = λ n. (b s).capped (ground arith);
                        }))
                  | inr g ↦ rw (e, f, g) (signal_waiter-AllBalanced env s k b h m.queue refl)
                ]
              ]
      ]
