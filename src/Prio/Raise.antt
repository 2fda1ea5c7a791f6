-- ===== src/Prio/Raise.antt =====
-- pass_prio (include/rtai_schedcore.h) raises priorities and lowers none. A smaller number is a higher
-- priority.
use rtai.Base.{ℕ, zero, suc, ◌≤◌, ◌≡◌, List, arith, true, Bool-cases, inl, inr, ◌==◌, ltb}
use rtai.Kernel.{
  Kernel, Blocked, null, rtp, sem_queue, msg_queue_of, ret_queue_of, mailbox, itself, is_ready,
  set_task, unlink, rt_sched_linux_priority,
}
use rtai.Sched.{priority_of, insert_after_equals}
use rtai.Sched.Quiet.{priority_of-enq_ready_task}
use rtai.Prio.{
  Next, ends, goes_on, stray, queue_at, set_queue_at, is_first, misplaced, waits_for_owner,
  next_owner, reposition, pass_prio_loop,
}

-- No task has a lower priority in the second state than in the first.
abbrev pub NoneLower : Kernel → Kernel → Type 0
NoneLower k k' = (u : ℕ) → priority_of k' u ≤ priority_of k u

NoneLower-trans : (k l m : Kernel) → NoneLower k l → NoneLower l m → NoneLower k m
NoneLower-trans k l m p q u = omega (arith, p u, q u)

set_task-NoneLower :
    (t p : ℕ) (k : Kernel)
    → ltb p (k.tasks t).priority ≡ true
    → NoneLower k (set_task t (record (k.tasks t) { priority = p }) k)
set_task-NoneLower t p k e u = elim (Bool-cases (t == u)) [
  | inl f ↦ ground (arith, e, f)
  | inr f ↦ rw (priority_of, f) (omega arith)
]

reposition-NoneLower : (t : ℕ) (k : Kernel) → NoneLower k (reposition t k)
unfolding reposition
reposition-NoneLower t k u =
    elim (Bool-cases (misplaced (priority_of k) t rt_sched_linux_priority k.ready)) [
      | inl e ↦
          rw e
            (omega (arith, priority_of-enq_ready_task t u (record k { ready = unlink t k.ready })))
      | inr e ↦ rw e (omega arith)
    ]

set_queue_at-NoneLower : (b : Blocked) (q : List ℕ) (k : Kernel) → NoneLower k (set_queue_at b q k)
unfolding set_queue_at
set_queue_at-NoneLower (sem_queue s) q k u = omega arith
set_queue_at-NoneLower (msg_queue_of t) q k u = ground arith
set_queue_at-NoneLower (ret_queue_of t) q k u = ground arith
set_queue_at-NoneLower null q k u = omega arith
set_queue_at-NoneLower (rtp e) q k u = omega arith
set_queue_at-NoneLower (mailbox m) q k u = omega arith
set_queue_at-NoneLower (itself t) q k u = omega arith

-- What a round does that gives the task `to` the priority p: no task has a lower priority, and `to`
-- has p or a higher one.
abbrev pub Raised : ℕ → ℕ → Kernel → Kernel → Type 0
Raised to p k l = NoneLower k l × (priority_of l to ≤ p)

set_task-Raised :
    (to p : ℕ) (k l : Kernel)
    → ltb p (k.tasks to).priority ≡ true
    → NoneLower (set_task to (record (k.tasks to) { priority = p }) k) l
    → Raised to p k l
set_task-Raised to p k l e h =
    let k' : Kernel = set_task to (record (k.tasks to) { priority = p }) k in
    let own : priority_of k' to ≡ p = ground arith in
    (NoneLower-trans k k' l (set_task-NoneLower to p k e) h, omega (arith, h to, own))

-- One round, where the rounds to come lower no priority.
pub pass_prio_loop-Raised :
    (fuel to p : ℕ) (k : Kernel)
    → ((next : Next) (l : Kernel) → NoneLower l (pass_prio_loop fuel next p l))
    → Raised to p k (pass_prio_loop (suc fuel) (goes_on to) p k)
unfolding pass_prio_loop
pass_prio_loop-Raised fuel to p k rest =
    let x = k.tasks to in
    let k' : Kernel = set_task to (record x { priority = p }) k in
    let q = queue_at x.blocked_on k' in
    let q' = insert_after_equals (priority_of k') to (unlink to q) in
    let moved = set_queue_at x.blocked_on q' k' in
    let on = pass_prio_loop fuel (next_owner x.blocked_on moved) p moved in
    let moving = set_queue_at-NoneLower x.blocked_on q' k' in
    elim (Bool-cases (ltb p x.priority)) [
      | inr e ↦ rw (e, pass_prio_loop) ((λ u. omega arith), ground (arith, e))
      | inl e ↦ elim (Bool-cases (is_ready x.state)) [
        | inl f ↦
            rw (e, f, pass_prio_loop)
              (set_task-Raised to p k (reposition to k') e (reposition-NoneLower to k'))
        | inr f ↦ elim (Bool-cases (waits_for_owner x.blocked_on x.state k)) [
          | inr g ↦ rw (e, f, g, pass_prio_loop) (set_task-Raised to p k k' e (λ u. omega arith))
          | inl g ↦ elim (Bool-cases (is_first to q)) [
            | inl h ↦
                rw (e, f, g, h, pass_prio_loop)
                  (set_task-Raised to p k (pass_prio_loop fuel (next_owner x.blocked_on k') p k') e
                    (rest (next_owner x.blocked_on k') k'))
            | inr h ↦ elim (Bool-cases (is_first to q')) [
              | inl i ↦
                  rw (e, f, g, h, i, pass_prio_loop)
                    (set_task-Raised to p k on e (
                      NoneLower-trans k' moved on moving
                        (rest (next_owner x.blocked_on moved) moved)))
              | inr i ↦ rw (e, f, g, h, i, pass_prio_loop) (set_task-Raised to p k moved e moving)
            ]
          ]
        ]
      ]
    ]

pub pass_prio_loop-NoneLower :
    (fuel p : ℕ) (to : Next) (k : Kernel) → NoneLower k (pass_prio_loop fuel to p k)
unfolding pass_prio_loop
pass_prio_loop-NoneLower zero p to k = λ u. omega arith
pass_prio_loop-NoneLower (suc fuel) p ends k = λ u. omega arith
pass_prio_loop-NoneLower (suc fuel) p stray k = λ u. omega arith
pass_prio_loop-NoneLower (suc fuel) p (goes_on to) k =
    (pass_prio_loop-Raised fuel to p k (pass_prio_loop-NoneLower fuel p)).0
