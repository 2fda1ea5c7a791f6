-- ===== src/Sem.antt =====
-- src/ipc/sem/sem.c: semaphores, mutexes, condition variables and the operations that may block.
-- Configuration: one processor, CONFIG_RTAI_USE_NEWERR=1, no CONFIG_RTAI_RT_POLL (as configure.ac sets
-- them when nothing is asked for), no CONFIG_RTAI_CLOCK_REALTIME. A count stays within an int.
--
-- An operation may call rt_schedule(): other tasks and interrupts run, and the caller goes on when
-- it is chosen again. `rt_schedule` is that whole step from the call to the return, a parameter on
-- which nothing is assumed but where a theorem says so; `rt_task_delete` (src/sched/sched.c) is the
-- other parameter. `ntasks` bounds the number of tasks, for the loop of pass_prio.
pub mod Signal
pub mod Wait
pub mod Frames
pub mod Balance
pub mod RoundTrip
pub mod Cond
pub mod Elsewhere
mod Tests
use rtai.Base.{
  ℕ, zero, suc, ◌+◌, ◌/◌, ◌%◌, List, [], ◌∷◌, Bool, true, false, not, ◌&&◌, ◌||◌, ltb, leb, ◌==◌,
  if◌then◌else◌, Option, none, some,
}
use rtai.Base.Int.{ℤ, pos, negsuc, ◌+ℤ◌, ◌-ℤ◌, ltb_ℤ, leb_ℤ, eq_ℤ}
use rtai.Kernel.{
  TaskState, is_ready, Blocked, null, rtp, sem_queue, Task, Owner, nobody, task, number, Sem,
  Kernel, set_task, set_sem, update,
}
use rtai.Sched.{
  enq_ready_task, rem_ready_task, rem_ready_current, enq_timed_task, rem_timed_task,
  enqueue_blocked, dequeue_blocked, priority_of,
}
use rtai.Prio.{
  enqueue_resqel, dequeue_resqel_reset_task_priority, set_task_prio_from_resq, pass_prio,
}

-- include/rtai_sched.h
abbrev pub rte_base : ℕ
rte_base = 0x3FFFFF00

abbrev pub rte_unblkd : ℤ
rte_unblkd = pos (rte_base + 2)

abbrev pub rte_timout : ℤ
rte_timout = pos (rte_base + 3)

abbrev pub rte_objrem : ℤ
rte_objrem = pos (rte_base + 4)

abbrev pub rte_objinv : ℤ
rte_objinv = pos (rte_base + 5)

abbrev pub rte_perm : ℤ
rte_perm = pos (rte_base + 6)

abbrev pub rte_deadlok : ℤ
rte_deadlok = pos (rte_base + 7)

abbrev pub rte_lowerr : ℤ
rte_lowerr = pos (rte_base + 1)

-- RTP_OBJREM
abbrev pub rtp_objrem : Blocked
rtp_objrem = rtp 4

-- RT_RESEM_SUSPDEL
abbrev pub rt_resem_suspdel : ℤ
rt_resem_suspdel = negsuc 0x7ffffffe

-- rt_typed_sem_init(sem, value, type). `type & 3` is type % 4, and FIFO_Q is 4.
pub rt_typed_sem_init : ℤ → ℕ → Sem
rt_typed_sem_init value type = record {
  magic = true;
  type = if kind == 3 then pos 1 else pos kind -ℤ pos 2;
  restype = if kind == 3 then value else pos 0;
  count = if ltb kind 2 && ltb_ℤ (pos 1) value then pos 1 else if kind == 3 then pos 1 else value;
  owndby = nobody;
  qtype = if kind == 3 then false else type / 4 % 2 == 1;
  queue = [];
}
  where
    kind : ℕ
    kind = type % 4

-- state &= ~(RT_SCHED_SEMAPHORE | RT_SCHED_DELAYED)
abbrev clear_waiting : TaskState → TaskState
clear_waiting s = record s { semaphore = false; delayed = false }

-- `task->state != RT_SCHED_READY && (task->state &= ~(...)) == RT_SCHED_READY`: the test and its effect
pub clear_if_waiting : ℕ → Kernel → Bool × Kernel
clear_if_waiting t k =
    let x = k.tasks t in
    let state = clear_waiting x.state in
    if is_ready x.state
    then (false, k)
    else (is_ready state, set_task t (record x { state = state }) k)

-- What a signal or a broadcast does to the task that it lets go, up to enq_ready_task. The flag says
-- whether the task became ready.
pub release : ℕ → ℕ → Kernel → Bool × Kernel
release t s k =
    let (woken, k') = clear_if_waiting t (rem_timed_task t (dequeue_blocked t s k)) in
    if woken then (true, enq_ready_task t k') else (false, k')

-- `if (++sem->count > 1) sem->count = 1;` unless the semaphore counts
pub count_up : Sem → Sem
count_up m =
    let c = m.count +ℤ pos 1 in
    record m { count = if not (eq_ℤ m.type (pos 0)) && ltb_ℤ (pos 1) c then pos 1 else c }

is_owner : Owner → ℕ → Bool
is_owner nobody t = false
is_owner (task u) t = u == t
is_owner (number n) t = false

pub owned_by : Sem → ℕ → Bool
unfolding is_owner
owned_by m t = is_owner m.owndby t

pub owner_of : Option ℕ → Owner
owner_of none = nobody
owner_of (some t) = task t

unfoldable pub head? : List ℕ → Option ℕ
head? [] = none
head? (x ∷ xs) = some x

-- RT_SCHED_DELAYED is 4
abbrev pub minus_delayed : TaskState → ℤ
minus_delayed s = if s.delayed then negsuc 3 else pos 0
