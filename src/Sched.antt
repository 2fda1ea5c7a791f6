-- ===== src/Sched.antt =====
-- include/rtai_schedcore.h: the ready list, the list of timed tasks and the queues of blocked tasks,
-- as compiled for one processor without CONFIG_RTAI_LONG_TIMED_LIST.
pub mod Mail
pub mod Count
pub mod Order
pub mod Entering
pub mod Wake
pub mod Quiet
mod Tests
use rtai.Base.{
  ℕ, zero, suc, ◌+◌, List, [], ◌∷◌, ◌++◌, Bool, true, false, not, ◌&&◌, ◌||◌, leb, ltb, ◌==◌,
  if◌then◌else◌, Option, none,
}
use rtai.Base.Int.{ℤ, pos, ltb_ℤ}
use rtai.Kernel.{
  TaskState, nothing_awaited, is_ready, Blocked, null, rtp, sem_queue, Task, Sem, Kernel, update,
  set_task, set_sem, unlink, rt_sched_linux_priority,
}

-- The walk shared by enq_ready_task and the priority queues: past every task whose key is at most
-- the new one's. The walk ends at the head of the list at the latest.
unfoldable pub insert_after_equals : (ℕ → ℕ) → ℕ → List ℕ → List ℕ
insert_after_equals key t [] = t ∷ []
insert_after_equals key t (x ∷ xs) =
    if leb (key x) (key t) then x ∷ insert_after_equals key t xs else t ∷ x ∷ xs

abbrev pub priority_of : Kernel → ℕ → ℕ
priority_of k t = (k.tasks t).priority

abbrev pub resume_time_of : Kernel → ℕ → ℕ
resume_time_of k t = (k.tasks t).resume_time

-- NON_RTAI_TASK_SUSPEND
unfoldable pub non_rtai_task_suspend : ℕ → Kernel → Kernel
non_rtai_task_suspend t k = set_task t (record (k.tasks t) { lnx_asleep = true }) k

-- For a task that is not in the ready list: the source links its nodes anew, and the list of the model
-- stands for the links only as long as no task is in it twice.
-- A task that runs under Linux is marked and left to Linux to wake; no ready task has a priority
-- below 0, and none has that of Linux, which ends the walk.
unfoldable pub enq_ready_task : ℕ → Kernel → Kernel
enq_ready_task t k =
    let x = k.tasks t in
    if x.is_hard
    then record k { ready = insert_after_equals (priority_of k) t k.ready }
    else record k {
      tasks = update k.tasks t (record x { state = record x.state { sftrdy = true } });
      srq = k.srq ++ t ∷ [];
    }

-- enq_ready_edf_task: past the tasks under the deadline policy whose period is no longer
unfoldable pub insert_edf : (ℕ → Task) → ℕ → List ℕ → List ℕ
insert_edf tasks t [] = t ∷ []
insert_edf tasks t (x ∷ xs) =
    if ltb_ℤ (tasks x).policy (pos 0) && leb (tasks x).period (tasks t).period
    then x ∷ insert_edf tasks t xs
    else t ∷ x ∷ xs

pub enq_ready_edf_task : ℕ → Kernel → Kernel
enq_ready_edf_task t k = record k { ready = insert_edf k.tasks t k.ready }

-- The flag is the value returned: whether the priority changed.
pub renq_ready_task : ℕ → ℕ → Kernel → Bool × Kernel
renq_ready_task t priority k =
    let x = k.tasks t in
    let k' : Kernel = set_task t (record x { priority = priority }) k in
    if x.priority == priority
    then (false, k)
    else if is_ready x.state
    then (true, enq_ready_task t (record k' { ready = unlink t k'.ready }))
    else (true, k')

unfoldable pub rem_ready_current : ℕ → Kernel → Kernel
rem_ready_current t k =
    let k' = if (k.tasks t).is_hard then k else non_rtai_task_suspend t k in
    record k' { ready = unlink t k'.ready }

unfoldable pub rem_ready_task : ℕ → Kernel → Kernel
rem_ready_task t k = if is_ready (k.tasks t).state then rem_ready_current t k else k

-- before the first task that is not due earlier
unfoldable pub insert_timed : (ℕ → ℕ) → ℕ → List ℕ → List ℕ
insert_timed time t [] = t ∷ []
insert_timed time t (x ∷ xs) =
    if ltb (time x) (time t) then x ∷ insert_timed time t xs else t ∷ x ∷ xs

pub enq_timed_task : ℕ → Kernel → Kernel
enq_timed_task t k = record k { timed = insert_timed (resume_time_of k) t k.timed }

unfoldable pub rem_timed_task : ℕ → Kernel → Kernel
rem_timed_task t k = if (k.tasks t).state.delayed then record k { timed = unlink t k.timed } else k

-- state &= ~(RT_SCHED_DELAYED | ... | RT_SCHED_POLL), as in wake_up_timed_tasks
abbrev pub clear_timed : TaskState → TaskState
clear_timed s = record s {
  delayed = false;
  suspended = false;
  semaphore = false;
  receive = false;
  send = false;
  rpc = false;
  returning = false;
  mbxsusp = false;
  poll = false;
}

-- the body of the loop of wake_up_timed_tasks
pub wake_up_task : ℕ → Kernel → Kernel
wake_up_task t k =
    let x = k.tasks t in
    let depth = if x.state.suspended && ltb_ℤ (pos 0) x.suspdepth then pos 0 else x.suspdepth in
    let state = clear_timed x.state in
    let k' : Kernel = set_task t (record x { suspdepth = depth; state = state }) k in
    if is_ready state
    then (if ltb_ℤ x.policy (pos 0) then enq_ready_edf_task t k' else enq_ready_task t k')
    else k'

-- The loop after its first round. The list ends at the Linux task, which is never due.
pub wake_up_loop : List ℕ → Kernel → Kernel
wake_up_loop [] k = record k { timed = [] }
wake_up_loop (t ∷ ts) k = elim (leb (k.tasks t).resume_time k.time_h) [
  | true ↦ wake_up_loop ts (wake_up_task t k)
  | false ↦ record k { timed = t ∷ ts }
]

-- The first task may be woken early, by its scheduling latency.
pub wake_up_from : List ℕ → Kernel → Kernel
wake_up_from [] k = k
wake_up_from (t ∷ ts) k =
    if leb (k.tasks t).resume_time (k.time_h + (k.tasks t).schedlat)
    then wake_up_loop ts (wake_up_task t k)
    else k

pub wake_up_timed_tasks : Kernel → Kernel
wake_up_timed_tasks k = wake_up_from k.timed k

-- The place in a queue: behind the last, or by priority.
unfoldable pub enqueue_in : Bool → (ℕ → ℕ) → ℕ → List ℕ → List ℕ
enqueue_in fifo key t q = if fifo then q ++ t ∷ [] else insert_after_equals key t q

-- enqueue_blocked(task, &sem->queue, qtype)
unfoldable pub enqueue_blocked : ℕ → ℕ → Bool → Kernel → Kernel
enqueue_blocked t s qtype k =
    let m = k.sems s in
    set_sem s (record m { queue = enqueue_in qtype (priority_of k) t m.queue })
      (set_task t (record (k.tasks t) { blocked_on = sem_queue s }) k)

-- dequeue_blocked(task) of a task that is linked in the queue of the semaphore s, or in none
unfoldable pub dequeue_blocked : ℕ → ℕ → Kernel → Kernel
dequeue_blocked t s k =
    let m = k.sems s in
    set_sem s (record m { queue = unlink t m.queue })
      (set_task t (record (k.tasks t) { prio_passed_to = none; blocked_on = null }) k)
