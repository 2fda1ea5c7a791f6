-- ===== src/Sched/Quiet.antt =====
-- What moving tasks between the lists leaves alone.
use rtai.Base.{
  ℕ, ◌≡◌, refl, ◌∙◌, arith, Bool, true, false, Bool-cases, inl, inr, if◌then◌else◌, ◌==◌,
}
use rtai.Kernel.{Kernel, Task, is_ready, set_task, unlink}
use rtai.Sched.{
  enq_ready_task, renq_ready_task, rem_ready_task, rem_ready_current, rem_timed_task,
  enq_timed_task, non_rtai_task_suspend, insert_after_equals, priority_of,
}

-- The semaphores, the running task and the pending suspensions stay the same.
pub record Quiet (k k' : Kernel) : Type 0 where
  pub sems : k'.sems ≡ k.sems
  pub current : k'.current ≡ k.current
  pub depth : (u : ℕ) → (k'.tasks u).suspdepth ≡ (k.tasks u).suspdepth

pub Quiet-refl : (k : Kernel) → Quiet k k
Quiet-refl k = record { sems = refl; current = refl; depth = λ u. refl }

pub Quiet-trans : {k l m : Kernel} → Quiet k l → Quiet l m → Quiet k m
Quiet-trans p q = record {
  sems = q.sems ∙ p.sems;
  current = q.current ∙ p.current;
  depth = λ u. q.depth u ∙ p.depth u;
}

Quiet-if : (b : Bool) {k l m : Kernel} → Quiet k l → Quiet k m → Quiet k (if b then l else m)
Quiet-if true p q = p
Quiet-if false p q = q

-- A change of a task that leaves its pending suspensions.
pub set_task-Quiet :
    (t : ℕ) (x : Task) (k : Kernel) → x.suspdepth ≡ (k.tasks t).suspdepth → Quiet k (set_task t x k)
set_task-Quiet t x k e = record { sems = refl; current = refl; depth = λ u. ground (arith, e) }

pub enq_ready_task-Quiet : (t : ℕ) (k : Kernel) → Quiet k (enq_ready_task t k)
unfolding enq_ready_task
enq_ready_task-Quiet t k = elim (Bool-cases (k.tasks t).is_hard) [
  | inl e ↦ rw e (record { sems = refl; current = refl; depth = λ u. refl })
  | inr e ↦ rw e (record { sems = refl; current = refl; depth = λ u. ground arith })
]

pub rem_timed_task-Quiet : (t : ℕ) (k : Kernel) → Quiet k (rem_timed_task t k)
unfolding rem_timed_task
rem_timed_task-Quiet t k =
    Quiet-if (k.tasks t).state.delayed (record { sems = refl; current = refl; depth = λ u. refl })
      (Quiet-refl k)

pub enq_timed_task-Quiet : (t : ℕ) (k : Kernel) → Quiet k (enq_timed_task t k)
unfolding enq_timed_task
enq_timed_task-Quiet t k = record { sems = refl; current = refl; depth = λ u. refl }

pub rem_ready_current-Quiet : (t : ℕ) (k : Kernel) → Quiet k (rem_ready_current t k)
unfolding rem_ready_current non_rtai_task_suspend
rem_ready_current-Quiet t k = elim (Bool-cases (k.tasks t).is_hard) [
  | inl e ↦ rw e (record { sems = refl; current = refl; depth = λ u. refl })
  | inr e ↦ rw e (record { sems = refl; current = refl; depth = λ u. ground arith })
]

pub rem_ready_task-Quiet : (t : ℕ) (k : Kernel) → Quiet k (rem_ready_task t k)
unfolding rem_ready_task
rem_ready_task-Quiet t k =
    Quiet-if (is_ready (k.tasks t).state) (rem_ready_current-Quiet t k) (Quiet-refl k)

pub renq_ready_task-Quiet : (t p : ℕ) (k : Kernel) → Quiet k (renq_ready_task t p k).1
unfolding renq_ready_task
renq_ready_task-Quiet t p k =
    let x = k.tasks t in
    let k' : Kernel = set_task t (record x { priority = p }) k in
    let set = set_task-Quiet t (record x { priority = p }) k refl in
    let out : Quiet k' (record k' { ready = unlink t k'.ready }) = record {
      sems = refl;
      current = refl;
      depth = λ u. refl;
    } in
    elim (Bool-cases (x.priority == p)) [
      | inl e ↦ rw e (Quiet-refl k)
      | inr e ↦ elim (Bool-cases (is_ready x.state)) [
        | inl r ↦ rw (e, r) (Quiet-trans set (Quiet-trans out (enq_ready_task-Quiet t _)))
        | inr r ↦ rw (e, r) set
      ]
    ]

-- A priority that a task has already changes nothing.
pub renq_ready_task-same :
    (t p : ℕ) (k : Kernel) → (k.tasks t).priority ≡ p → renq_ready_task t p k ≡ (false, k)
unfolding renq_ready_task
renq_ready_task-same t p k h =
    let e : ((k.tasks t).priority == p) ≡ true = ground arith in rw e refl

-- Making a task ready changes no priority.
pub priority_of-enq_ready_task :
    (t u : ℕ) (k : Kernel) → priority_of (enq_ready_task t k) u ≡ priority_of k u
unfolding enq_ready_task
priority_of-enq_ready_task t u k = elim (Bool-cases (k.tasks t).is_hard) [
  | inl e ↦ rw e refl
  | inr e ↦ rw e (ground arith)
]

-- What enq_ready_task does to the ready list for a hard real time task.
pub ready-enq_ready_task :
    (t : ℕ) (k : Kernel)
    → (k.tasks t).is_hard ≡ true
    → (enq_ready_task t k).ready ≡ insert_after_equals (priority_of k) t k.ready
unfolding enq_ready_task
ready-enq_ready_task t k h = rw h refl

pub rem_timed_task-idle :
    (t : ℕ) (k : Kernel) → (k.tasks t).state.delayed ≡ false → rem_timed_task t k ≡ k
unfolding rem_timed_task
rem_timed_task-idle t k h = rw h refl

pub tasks-rem_timed_task : (t : ℕ) (k : Kernel) → (rem_timed_task t k).tasks ≡ k.tasks
unfolding rem_timed_task
tasks-rem_timed_task t k = elim (Bool-cases (k.tasks t).state.delayed) [
  | inl e ↦ rw e refl
  | inr e ↦ rw e refl
]

pub ready-rem_timed_task : (t : ℕ) (k : Kernel) → (rem_timed_task t k).ready ≡ k.ready
unfolding rem_timed_task
ready-rem_timed_task t k = elim (Bool-cases (k.tasks t).state.delayed) [
  | inl e ↦ rw e refl
  | inr e ↦ rw e refl
]

pub tasks-enq_ready_task :
    (t : ℕ) (k : Kernel) → (k.tasks t).is_hard ≡ true → (enq_ready_task t k).tasks ≡ k.tasks
unfolding enq_ready_task
tasks-enq_ready_task t k h = rw h refl
