-- ===== src/Api/Unblock.antt =====
-- src/sched/api.c: rt_task_masked_unblock. A mask of state bits is a TaskState.
use rtai.Base.{ℕ, Bool, not, ◌&&◌, if◌then◌else◌}
use rtai.Base.Int.{ℤ, pos, ltb_ℤ}
use rtai.Kernel.{Task, TaskState, is_ready, nothing_awaited, rtp, Kernel, set_task}
use rtai.Sched.{enq_ready_task, rem_timed_task}
use rtai.Sem.{rte_unblkd}
use rtai.Api.{einval}

-- state &= ~mask
abbrev pub without : TaskState → TaskState → TaskState
without mask s = record {
  ready = s.ready && not mask.ready;
  suspended = s.suspended && not mask.suspended;
  delayed = s.delayed && not mask.delayed;
  semaphore = s.semaphore && not mask.semaphore;
  send = s.send && not mask.send;
  receive = s.receive && not mask.receive;
  rpc = s.rpc && not mask.rpc;
  returning = s.returning && not mask.returning;
  mbxsusp = s.mbxsusp && not mask.mbxsusp;
  sftrdy = s.sftrdy && not mask.sftrdy;
  poll = s.poll && not mask.poll;
  sigsusp = s.sigsusp && not mask.sigsusp;
}

-- `task->state && task->state != RT_SCHED_READY`
pub is_blocked : TaskState → Bool
is_blocked s = not (nothing_awaited s)

-- The bits of the mask are cleared, and a task that awaits nothing more is made ready.
unblocked : (Kernel → Kernel) → ℕ → TaskState → Kernel → Kernel
unblocked rt_schedule t mask k =
    let k₁ = if mask.delayed then rem_timed_task t k else k in
    let x = k₁.tasks t in
    let depth =
      if mask.suspended && x.state.suspended && ltb_ℤ (pos 0) x.suspdepth
      then pos 0
      else x.suspdepth in
    let state = without mask x.state in
    let x' : Task = record x { suspdepth = depth; state = state } in
    if is_ready state
    then rt_schedule (enq_ready_task t (set_task t (record x' { blocked_on = rtp 2 }) k₁))
    else set_task t x' k₁

pub rt_task_masked_unblock : (Kernel → Kernel) → ℕ → TaskState → Kernel → ℤ × Kernel
rt_task_masked_unblock rt_schedule t mask k =
    if not (k.tasks t).magic
    then (einval, k)
    else if is_blocked (k.tasks t).state
    then (rte_unblkd, unblocked rt_schedule t mask k)
    else (pos 0, k)
