-- ===== src/Sem/Wait/Balance.antt =====
-- Waits keep the counts and the queues of semaphores in balance (src/ipc/sem/sem.c).
use rtai.Base.{
  ℕ, suc, ◌≡◌, refl, sym, subst, arith, length, Bool, true, false, Bool-cases, inl, inr, ◌==◌,
  ==_self,
}
use rtai.Base.Int.{pos, ◌≤ℤ◌, ltb_ℤ, leb_ℤ}
use rtai.Kernel.{Kernel, Sem, Owner, nobody, task, number, set_sem, update, unlink}
use rtai.Sched.{dequeue_blocked, enqueue_blocked, enqueue_in}
use rtai.Sched.Quiet.{Quiet, Quiet-refl, Quiet-trans, set_task-Quiet, rem_ready_current-Quiet}
use rtai.Prio.Quiet.{set_task_prio_from_resq-Quiet, enqueue_resqel-Quiet}
use rtai.Sem.{count_up}
use rtai.Sem.Balance.{
  Balanced, blocked-Balanced, taken-Balanced, count_up-Balanced, length-enqueue_in,
}
use rtai.Sem.Signal.Balance.{AllBalanced, Quiet-AllBalanced, set_sem-AllBalanced}
use rtai.Sem.Wait.{
  count_down, take_over, acquired, block_current, withdraw, reset_prio, Wakeup, wakeup_of, got,
  removed, interrupted, forget_prio, boost_owner, block_on, may_block, resume_wait, rt_sem_wait,
}

-- Not a resource.
abbrev Plain : ℕ → Kernel → Type 0
Plain s k = (k.sems s).type ≤ℤ pos 0

acquired-AllBalanced : (s c : ℕ) (k : Kernel) → AllBalanced k → AllBalanced (acquired s c k)
unfolding acquired take_over
acquired-AllBalanced s c k b = elim (Bool-cases (ltb_ℤ (pos 0) (k.sems s).type)) [
  | inl e ↦ rw e (
      Quiet-AllBalanced (enqueue_resqel-Quiet c _)
        (set_sem-AllBalanced s _ k b (record { waiters = (b s).waiters; capped = (b s).capped })))
  | inr e ↦ rw e b
]

count_down-AllBalanced :
    (s : ℕ) (k : Kernel) → AllBalanced k → pos 1 ≤ℤ (k.sems s).count → AllBalanced (count_down s k)
unfolding count_down
count_down-AllBalanced s k b h = set_sem-AllBalanced s _ k b (taken-Balanced (k.sems s) (b s) h)

enqueued-AllBalanced :
    (s t : ℕ) (fifo : Bool) (key : ℕ → ℕ) (k : Kernel)
    → AllBalanced k
    → (k.sems s).count ≤ℤ pos 0
    → (f : ℕ → Sem) → f ≡ (count_down s k).sems
    → (j : ℕ) → Balanced (update f s (record (f s) { queue = enqueue_in fifo key t (f s).queue }) j)
unfolding count_down
enqueued-AllBalanced s t fifo key k b h f e j =
    subst
      (λ g. Balanced (update g s (record (g s) { queue = enqueue_in fifo key t (g s).queue }) j))
      (sym e)
      (elim (Bool-cases (s == j)) [
        | inl d ↦
            rw (d, ==_self s)
              (blocked-Balanced (k.sems s) (enqueue_in fifo key t (k.sems s).queue) (b s) h
                (length-enqueue_in fifo key t (k.sems s).queue))
        | inr d ↦ rw d (b j)
      ])

-- The count goes down by one and the running task comes into the queue.
block_current-AllBalanced :
    (s : ℕ) (timed : Bool) (k : Kernel)
    → AllBalanced k
    → (k.sems s).count ≤ℤ pos 0
    → AllBalanced (block_current s timed (count_down s k))
unfolding block_current enqueue_blocked
block_current-AllBalanced s timed k b h =
    let k' = count_down s k in
    let quiet =
      Quiet-trans (set_task-Quiet k'.current _ k' refl) (rem_ready_current-Quiet k'.current _) in
    enqueued-AllBalanced s k'.current (k'.sems s).qtype _ k b h _ quiet.sems

reset_prio-Quiet : (o : Owner) (resource : Bool) (k : Kernel) → Quiet k (reset_prio o resource k)
unfolding reset_prio
reset_prio-Quiet nobody resource k = Quiet-refl k
reset_prio-Quiet (number n) resource k = Quiet-refl k
reset_prio-Quiet (task t) true k = set_task_prio_from_resq-Quiet t k
reset_prio-Quiet (task t) false k = Quiet-refl k

left_queue-AllBalanced :
    (s c : ℕ) (k : Kernel)
    → AllBalanced k
    → length (k.sems s).queue ≡ suc (length (unlink c (k.sems s).queue))
    → let k₁ = dequeue_blocked c s k in AllBalanced (set_sem s (count_up (k₁.sems s)) k₁)
unfolding dequeue_blocked count_up
left_queue-AllBalanced s c k b h j = elim (Bool-cases (s == j)) [
  | inl e ↦ rw (e, ==_self s) (count_up-Balanced (k.sems s) (unlink c (k.sems s).queue) (b s) h)
  | inr e ↦ rw e (b j)
]

forget_prio-AllBalanced : (c : ℕ) (k : Kernel) → AllBalanced k → AllBalanced (forget_prio c k)
unfolding forget_prio
forget_prio-AllBalanced c k b = b

withdraw-AllBalanced :
    (s c : ℕ) (k : Kernel)
    → AllBalanced k
    → length (k.sems s).queue ≡ suc (length (unlink c (k.sems s).queue))
    → AllBalanced (withdraw s c k)
unfolding withdraw
withdraw-AllBalanced s c k b h =
    Quiet-AllBalanced (reset_prio-Quiet _ _ _) (left_queue-AllBalanced s c k b h)

-- A task that stops waiting without the semaphore still stands in its queue, once.
abbrev Resumed : ℕ → ℕ → Kernel → Type 0
Resumed s c k =
    wakeup_of (k.tasks c).blocked_on ≡ interrupted
    → length (k.sems s).queue ≡ suc (length (unlink c (k.sems s).queue))

resume_wait-AllBalanced :
    (ntasks : ℕ) (rt_schedule : Kernel → Kernel) (s c : ℕ) (k : Kernel)
    → AllBalanced k
    → Resumed s c k
    → (w : Wakeup) → wakeup_of (k.tasks c).blocked_on ≡ w
    → AllBalanced (resume_wait ntasks rt_schedule s c k).1
unfolding resume_wait
resume_wait-AllBalanced n sch s c k b h got e = rw (resume_wait, e) (acquired-AllBalanced s c k b)
resume_wait-AllBalanced n sch s c k b h removed e =
    rw (resume_wait, e) (forget_prio-AllBalanced c k b)
resume_wait-AllBalanced n sch s c k b h interrupted e =
    rw (resume_wait, e) (withdraw-AllBalanced s c k b (h e))

block_on-AllBalanced :
    (ntasks : ℕ) (rt_schedule : Kernel → Kernel) (s : ℕ) (timed : Bool) (k : Kernel)
    → Plain s k
    → AllBalanced k
    → (k.sems s).count ≤ℤ pos 0
    → AllBalanced (block_on ntasks rt_schedule s timed k)
unfolding block_on boost_owner
block_on-AllBalanced n sch s timed k p b h =
    let plain : ltb_ℤ (pos 0) (k.sems s).type ≡ false = ground (arith, p) in
    rw plain (block_current-AllBalanced s timed k b h)

module _ (ntasks : ℕ) (rt_schedule : Kernel → Kernel) where
  -- rt_sem_wait of a semaphore that is no resource keeps all semaphores in balance, on every branch:
  -- if rt_schedule() keeps them so, and if the caller, where it comes back from it with neither the
  -- semaphore nor the news of its removal, still stands in the queue of the semaphore, once.
  pub rt_sem_wait-AllBalanced :
      (s : ℕ) (k : Kernel)
      → ((k : Kernel) → AllBalanced k → AllBalanced (rt_schedule k))
      → Resumed s k.current (rt_schedule (block_on ntasks rt_schedule s false k))
      → Plain s k
      → AllBalanced k
      → AllBalanced (rt_sem_wait ntasks rt_schedule s k).1
  unfolding rt_sem_wait may_block
  rt_sem_wait-AllBalanced s k env resumed p b =
      let m = k.sems s in
      let plain : ltb_ℤ (pos 0) m.type ≡ false = ground (arith, p) in
      elim (Bool-cases m.magic) [
        | inr e ↦ rw e b
        | inl e ↦ elim (Bool-cases (leb_ℤ m.count (pos 0))) [
          | inr f ↦
              rw (e, f)
                (acquired-AllBalanced s k.current _
                  (count_down-AllBalanced s k b (ground (arith, f))))
          | inl f ↦
              rw (e, f, may_block, plain)
                (resume_wait-AllBalanced ntasks rt_schedule s k.current _
                  (env _
                    (block_on-AllBalanced ntasks rt_schedule s false k p b (ground (arith, f))))
                  resumed _ refl)
        ]
      ]
