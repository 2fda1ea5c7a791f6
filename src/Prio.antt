-- ===== src/Prio.antt =====
-- Priority inheritance: include/rtai_prinher.h without CONFIG_RTAI_FULL_PRINHER, and pass_prio of
-- include/rtai_schedcore.h, on one processor (where the map of processors to reschedule is empty).
pub mod Quiet
pub mod Same
pub mod RoundTrip
pub mod Place
pub mod Raise
pub mod Chain
mod Tests
use rtai.Base.{
  ℕ, zero, suc, ◌+◌, ◌-◌, List, [], ◌∷◌, Bool, true, false, ◌&&◌, ◌||◌, ltb, ◌==◌, if◌then◌else◌,
  Option, none, some,
}
use rtai.Base.Int.{pos, ltb_ℤ}
use rtai.Kernel.{
  TaskState, is_ready, Blocked, sem_queue, msg_queue_of, ret_queue_of, null, rtp, mailbox, itself,
  Owner, nobody, task, number, Kernel, set_task, set_sem, unlink, rt_sched_linux_priority,
}
use rtai.Sched.{priority_of, insert_after_equals, enq_ready_task, renq_ready_task}

-- the macro enqueue_resqel
unfoldable pub enqueue_resqel : ℕ → Kernel → Kernel
enqueue_resqel t k = set_task t (record (k.tasks t) { owndres = (k.tasks t).owndres + 1 }) k

-- The priority to go back to: that of the first task in msg_queue if it is higher than the base one.
unfoldable pub inherited_priority : Kernel → List ℕ → ℕ → ℕ
inherited_priority k [] base = base
inherited_priority k (s ∷ q) base = if ltb (priority_of k s) base then priority_of k s else base

-- _set_task_prio_from_resq
pub set_task_prio_from_msg_queue : ℕ → Kernel → Bool × Kernel
set_task_prio_from_msg_queue t k =
    renq_ready_task t (inherited_priority k (k.tasks t).msg_queue (k.tasks t).base_priority) k

-- `--owndres <= 0`, where owndres is never below 0
pub dequeue_resqel_reset_task_priority : ℕ → Kernel → Bool × Kernel
dequeue_resqel_reset_task_priority t k =
    let left = (k.tasks t).owndres - 1 in
    let k' : Kernel = set_task t (record (k.tasks t) { owndres = left }) k in
    if left == 0 then set_task_prio_from_msg_queue t k' else (false, k')

pub set_task_prio_from_resq : ℕ → Kernel → Bool × Kernel
set_task_prio_from_resq t k =
    if (k.tasks t).owndres == 0 then set_task_prio_from_msg_queue t k else (false, k)

-- The queue that a pointer to a QUEUE heads, and the same with the queue changed.
pub queue_at : Blocked → Kernel → List ℕ
queue_at (sem_queue s) k = (k.sems s).queue
queue_at (msg_queue_of t) k = (k.tasks t).msg_queue
queue_at (ret_queue_of t) k = (k.tasks t).ret_queue
queue_at null k = []
queue_at (rtp e) k = []
queue_at (mailbox m) k = []
queue_at (itself t) k = []

pub set_queue_at : Blocked → List ℕ → Kernel → Kernel
set_queue_at (sem_queue s) q k = set_sem s (record (k.sems s) { queue = q }) k
set_queue_at (msg_queue_of t) q k = set_task t (record (k.tasks t) { msg_queue = q }) k
set_queue_at (ret_queue_of t) q k = set_task t (record (k.tasks t) { ret_queue = q }) k
set_queue_at null q k = k
set_queue_at (rtp e) q k = k
set_queue_at (mailbox m) q k = k
set_queue_at (itself t) q k = k

-- whether a task is first in a list
pub is_first : ℕ → List ℕ → Bool
is_first t [] = false
is_first t (x ∷ xs) = x == t

-- `(to->rprev)->priority > to->priority || (to->rnext)->priority < to->priority`, where the walk has
-- come by a task of priority `before`.
unfoldable pub misplaced : (ℕ → ℕ) → ℕ → ℕ → List ℕ → Bool
misplaced key t before [] = false
misplaced key t before (x ∷ xs) =
    if x == t then ltb (key t) before || ltb (next_key xs) (key t) else misplaced key t (key x) xs
  where
    next_key : List ℕ → ℕ
    next_key [] = rt_sched_linux_priority
    next_key (y ∷ ys) = key y

-- The condition of pass_prio on a task that is not ready: it waits in a queue whose owner is to
-- inherit.
pub waits_for_owner : Blocked → TaskState → Kernel → Bool
waits_for_owner (sem_queue s) b k =
    (b.semaphore && ltb_ℤ (pos 0) (k.sems s).type) || b.send || b.rpc || b.returning
waits_for_owner (msg_queue_of t) b k = b.send || b.rpc || b.returning
waits_for_owner (ret_queue_of t) b k = b.send || b.rpc || b.returning
waits_for_owner null b k = false
waits_for_owner (rtp e) b k = false
waits_for_owner (mailbox m) b k = b.send || b.rpc || b.returning
waits_for_owner (itself t) b k = b.send || b.rpc || b.returning

-- What `to` becomes: NULL, a task, or a pointer that is none.
pub data Next : Type 0 where
  ends : Next
  goes_on : ℕ → Next
  stray : Next

owner_task : Owner → Next
owner_task nobody = ends
owner_task (task t) = goes_on t
owner_task (number n) = if n == 0 then ends else stray

-- The task that is to inherit next. In a ret_queue `task` is NULL, or RTP_HIGERR while the owner of the
-- queue waits in rt_receive. A mailbox or a task has no owner where a queue has it.
pub next_owner : Blocked → Kernel → Next
next_owner (sem_queue s) k = owner_task (k.sems s).owndby
next_owner (msg_queue_of t) k = elim (k.tasks t).msg_task [ none ↦ ends | some u ↦ goes_on u ]
next_owner (ret_queue_of t) k = if (k.tasks t).ret_task then stray else ends
next_owner null k = ends
next_owner (rtp e) k = ends
next_owner (mailbox m) k = stray
next_owner (itself t) k = stray

-- The new priority of a ready task, in its new place in the ready list.
pub reposition : ℕ → Kernel → Kernel
reposition t k =
    if misplaced (priority_of k) t rt_sched_linux_priority k.ready
    then enq_ready_task t (record k { ready = unlink t k.ready })
    else k

-- The loop of pass_prio from the task `to` on. Each round gives `priority` to a task that had a lower one,
-- so one round more than there are tasks is enough. A stray pointer is read for its priority.
pub pass_prio_loop : ℕ → Next → ℕ → Kernel → Kernel
pass_prio_loop zero to priority k = k
pass_prio_loop (suc fuel) ends priority k = k
pass_prio_loop (suc fuel) stray priority k = record k { astray = true }
pass_prio_loop (suc fuel) (goes_on to) priority k =
    let x = k.tasks to in
    let k' : Kernel = set_task to (record x { priority = priority }) k in
    let q = queue_at x.blocked_on k' in
    let q' = insert_after_equals (priority_of k') to (unlink to q) in
    let moved = set_queue_at x.blocked_on q' k' in
    elim (ltb priority x.priority) [
      | false ↦ k
      | true ↦ elim (is_ready x.state) [
        | true ↦ reposition to k'
        | false ↦ elim (waits_for_owner x.blocked_on x.state k) [
          | false ↦ k'
          | true ↦ elim (is_first to q) [
            | true ↦ pass_prio_loop fuel (next_owner x.blocked_on k') priority k'
            | false ↦ elim (is_first to q') [
              | true ↦ pass_prio_loop fuel (next_owner x.blocked_on moved) priority moved
              | false ↦ moved
            ]
          ]
        ]
      ]
    ]

-- pass_prio(to, from), with the fuel for n tasks
pub pass_prio : ℕ → Owner → ℕ → Kernel → Kernel
unfolding owner_task
pass_prio n to from k = pass_prio_loop (n + 1) (owner_task to) (priority_of k from) k
