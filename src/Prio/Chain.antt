-- ===== src/Prio/Chain.antt =====
-- pass_prio (include/rtai_schedcore.h) along a chain of tasks of which each waits for the next.
use rtai.Prio.Raise.{NoneLower, pass_prio_loop-Raised, pass_prio_loop-NoneLower}
use rtai.Base.{
  refl, ap, sym, ◌∙◌, [], ◌∷◌, false, All, length, if_false, if_true, ==_self, ℕ, zero, suc, ◌+◌,
  ◌≤◌, ◌≡◌, subst, List, arith, true, Bool-cases, inl, inr, ◌==◌, ltb,
}
use rtai.Kernel.{
  Task, Sem, Kernel, sem_queue, task, is_ready, set_task, unlink, rt_sched_linux_priority,
}
use rtai.Sched.{priority_of, enq_ready_task}
use rtai.Base.Int.{pos, ltb_ℤ}
use rtai.Sched.Order.{Sorted, insert_after_equals-Sorted}
use rtai.Prio.Place.{Sorted-none, Sorted-unlink, Sorted-placed}
use rtai.Sched.Count.{occurrences}
use rtai.Prio.{
  goes_on, queue_at, is_first, misplaced, waits_for_owner, next_owner, owner_task, reposition,
  pass_prio_loop, pass_prio,
}

-- The task u, not ready and of a lower priority than p, waits as the first for a mutex of the task v.
pub record Waits (p : ℕ) (u v : ℕ) (x : Task) (sems : ℕ → Sem) : Type 0 where
  pub sem : ℕ
  pub lower : ltb p x.priority ≡ true
  pub not_ready : is_ready x.state ≡ false
  pub for_sem : x.state.semaphore ≡ true
  pub at : x.blocked_on ≡ sem_queue sem
  pub mutex : ltb_ℤ (pos 0) (sems sem).type ≡ true
  pub first : is_first u (sems sem).queue ≡ true
  pub owner : (sems sem).owndby ≡ task v

-- Each task of the chain waits for the next, is not in the ready list and does not come twice; the last is
-- a ready hard real time task, once in the ready list.
abbrev pub Chain : ℕ → Kernel → ℕ → List ℕ → Type 0
Chain p k u [] =
    (is_ready (k.tasks u).state ≡ true) × ((k.tasks u).is_hard ≡ true) × (occurrences u k.ready ≡ 1)
Chain p k u (v ∷ us) =
    Waits p u v (k.tasks u) k.sems
    × (occurrences u (v ∷ us) ≡ 0)
    × (occurrences u k.ready ≡ 0)
    × Chain p k v us

-- A chain without the task t, whose priority changes.
Chain-other :
    (p t : ℕ) (y : Task) (k : Kernel) (u : ℕ) (us : List ℕ)
    → occurrences t (u ∷ us) ≡ 0
    → Chain p k u us
    → Chain p (set_task t y k) u us
Chain-other p t y k u [] o (r, h, n) =
    let d : (t == u) ≡ false = ground (arith, o) in
    (
      ap (λ (x : Task). is_ready x.state) (if_false _ _ d) ∙ r,
      ap (λ (x : Task). x.is_hard) (if_false {b = t == u} _ _ d) ∙ h,
      n,
    )
Chain-other p t y k u (v ∷ us) o (w, n, out, c) =
    let d : (t == u) ≡ false = ground (arith, o) in
    (
      subst (λ x. Waits p u v x k.sems) (sym (if_false {b = t == u} _ _ d)) w,
      n,
      out,
      Chain-other p t y k v us (ground (arith, o)) c,
    )

-- A round at a task that waits.
module _ (p u v : ℕ) (k : Kernel) (w : Waits p u v (k.tasks u) k.sems) where
  abbrev raised : Kernel
  raised = set_task u (record (k.tasks u) { priority = p }) k

  waits : waits_for_owner (k.tasks u).blocked_on (k.tasks u).state k ≡ true
  unfolding waits_for_owner
  waits = rw (w.at, w.for_sem, w.mutex) refl

  first : is_first u (queue_at (k.tasks u).blocked_on raised) ≡ true
  unfolding queue_at
  first = ap (λ b. is_first u (queue_at b raised)) w.at ∙ w.first

  next : next_owner (k.tasks u).blocked_on raised ≡ goes_on v
  unfolding next_owner owner_task
  next = ap (λ b. next_owner b raised) w.at ∙ ap owner_task w.owner

  pass_prio_loop-waits :
      (fuel : ℕ)
      → pass_prio_loop (suc fuel) (goes_on u) p k ≡ pass_prio_loop fuel (goes_on v) p raised
  unfolding pass_prio_loop
  pass_prio_loop-waits fuel =
      rw (pass_prio_loop, w.lower, w.not_ready, waits, first)
        (ap (λ n. pass_prio_loop fuel n p raised) next)

astray-enq_ready_task : (t : ℕ) (k : Kernel) → (enq_ready_task t k).astray ≡ k.astray
unfolding enq_ready_task
astray-enq_ready_task t k = elim (Bool-cases (k.tasks t).is_hard) [
  | inl e ↦ rw e refl
  | inr e ↦ rw e refl
]

astray-reposition : (t : ℕ) (k : Kernel) → (reposition t k).astray ≡ k.astray
unfolding reposition
astray-reposition t k =
    elim (Bool-cases (misplaced (priority_of k) t rt_sched_linux_priority k.ready)) [
      | inl e ↦ rw e (astray-enq_ready_task t (record k { ready = unlink t k.ready }))
      | inr e ↦ rw e refl
    ]

-- The ready list by priority, when the task u gets the higher priority p.
module _ (p u : ℕ) (k : Kernel) (higher : ltb p (k.tasks u).priority ≡ true)
    (sorted : Sorted (priority_of k) k.ready) where
  abbrev higher_up : Kernel
  higher_up = set_task u (record (k.tasks u) { priority = p }) k

  others : (j : ℕ) → (u == j) ≡ false → priority_of higher_up j ≡ priority_of k j
  others j d = ap (λ (x : Task). x.priority) (if_false {b = u == j} _ _ d)

  own : priority_of higher_up u ≤ priority_of k u
  own = ground (arith, higher)

  absent-Sorted : occurrences u k.ready ≡ 0 → Sorted (priority_of higher_up) k.ready
  absent-Sorted o =
      Sorted-none (priority_of k) (priority_of higher_up) u others own k.ready sorted o

  reposition-Sorted :
      (k.tasks u).is_hard ≡ true
      → occurrences u k.ready ≡ 1
      → Sorted (priority_of (reposition u higher_up)) (reposition u higher_up).ready
  unfolding reposition enq_ready_task
  reposition-Sorted h o =
      let key = priority_of k in
      let key' = priority_of higher_up in
      let hard : (higher_up.tasks u).is_hard ≡ true =
        ap (λ (x : Task). x.is_hard) (if_true {b = u == u} _ _ (==_self u)) ∙ h in
      let linux = rt_sched_linux_priority in
      elim (Bool-cases (misplaced key' u linux k.ready)) [
        | inl e ↦
            subst (λ (l : Kernel). Sorted (priority_of l) l.ready)
              (sym (if_true _ _ e ∙ if_true _ _ hard))
              (insert_after_equals-Sorted key' u (unlink u k.ready)
                (Sorted-unlink key key' u others own k.ready sorted o))
        | inr e ↦
            subst (λ (l : Kernel). Sorted (priority_of l) l.ready) (sym (if_false _ _ e))
              (Sorted-placed key key' u others own k.ready sorted o linux e)
      ]

-- The walk ends at a ready task, follows no stray pointer, and leaves the ready list sorted.
pass_prio_loop-ready :
    (fuel p u : ℕ) (k : Kernel)
    → Sorted (priority_of k) k.ready
    → Chain p k u []
    → let l = pass_prio_loop (suc fuel) (goes_on u) p k in
      (l.astray ≡ k.astray) × Sorted (priority_of l) l.ready
unfolding pass_prio_loop
pass_prio_loop-ready fuel p u k s (r, h, n) = elim (Bool-cases (ltb p (k.tasks u).priority)) [
  | inr e ↦ rw (pass_prio_loop, e) (refl, s)
  | inl e ↦ rw (pass_prio_loop, e, r) (astray-reposition u _, reposition-Sorted p u k e s h n)
]

-- What the walk along a chain comes to: no task has a lower priority than before, every task of the chain
-- has the priority p or a higher one, no pointer has led astray, and the ready list is sorted.
abbrev pub Inherited : ℕ → List ℕ → Kernel → Kernel → Type 0
Inherited p us k l =
    NoneLower k l
    × All (λ u. priority_of l u ≤ p) us
    × (l.astray ≡ k.astray)
    × Sorted (priority_of l) l.ready

pass_prio_loop-Inherited :
    (fuel p u : ℕ) (us : List ℕ) (k : Kernel)
    → length us ≤ fuel
    → Chain p k u us
    → Sorted (priority_of k) k.ready
    → Inherited p (u ∷ us) k (pass_prio_loop (suc fuel) (goes_on u) p k)
pass_prio_loop-Inherited fuel p u [] k b c s =
    let r = pass_prio_loop-Raised fuel u p k (pass_prio_loop-NoneLower fuel p) in
    let e = pass_prio_loop-ready fuel p u k s c in (r.0, (r.1, tt), e.0, e.1)
pass_prio_loop-Inherited zero p u (v ∷ us) k b c s = absurd (omega arith)
pass_prio_loop-Inherited (suc fuel) p u (v ∷ us) k b (w, n, out, c) s =
    let k' : Kernel = set_task u (record (k.tasks u) { priority = p }) k in
    let i =
      pass_prio_loop-Inherited fuel p v us k' (omega arith) (Chain-other p u _ k v us n c)
        (absent-Sorted p u k w.lower s out) in
    let r = pass_prio_loop-Raised (suc fuel) u p k (pass_prio_loop-NoneLower (suc fuel) p) in
    let step = sym (pass_prio_loop-waits p u v k w (suc fuel)) in
    (
      r.0,
      (r.1, subst (λ l. All (λ t. priority_of l t ≤ p) (v ∷ us)) step i.1),
      ap (λ (l : Kernel). l.astray) (sym step) ∙ i.2,
      subst (λ (l : Kernel). Sorted (priority_of l) l.ready) step i.3,
    )

-- The ready list is sorted by priority. The task `to` is the first of a chain of different tasks, at most
-- as many as ntasks and one, of which each but the last has a lower priority than the task `from`, is
-- not in the ready list, and waits, as the first in its queue, for a mutex that the next one owns;
-- the last is a ready hard real time task, once in the ready list. Then pass_prio follows the chain to its
-- end: each of its tasks has at least the priority that `from` had, no task has a lower priority
-- than it had, the ready list is sorted by the new priorities, and no pointer has been followed but
-- those to the tasks.
pub pass_prio-Inherited :
    (ntasks to from : ℕ) (us : List ℕ) (k : Kernel)
    → length us ≤ ntasks
    → Chain (priority_of k from) k to us
    → Sorted (priority_of k) k.ready
    → Inherited (priority_of k from) (to ∷ us) k (pass_prio ntasks (task to) from k)
unfolding pass_prio owner_task
pass_prio-Inherited n to from us k b c s =
    let p = priority_of k from in
    subst (λ f. Inherited p (to ∷ us) k (pass_prio_loop f (goes_on to) p k)) {x = suc n} {y = n + 1}
      (omega arith) (pass_prio_loop-Inherited n p to us k b c s)
