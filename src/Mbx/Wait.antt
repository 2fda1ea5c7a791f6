-- ===== src/Mbx/Wait.antt =====
-- src/ipc/mbx/mbx.c: _mbx_signal, mbx_wait, mbx_wait_until, and the step by which a service that
-- does not wait takes the semaphore of a mailbox.
-- `address` is the number that a pointer to a queue, a task or a mailbox has as an int; it matters
-- where mbx_wait returns what is left in blocked_on.
use rtai.Base.{ℕ, ◌==◌, ltb, Bool, true, false, ◌||◌, if◌then◌else◌, Option, none, some}
use rtai.Base.Int.{ℤ, pos, ltb_ℤ}
use rtai.Kernel.{
  TaskState, is_ready, Blocked, null, rtp, mailbox, Task, task, Kernel, set_task, set_sem, set_mbx,
}
use rtai.Sched.{enq_ready_task, enq_timed_task, rem_timed_task, rem_ready_current}
use rtai.Prio.{enqueue_resqel}
use rtai.Mbx.Ring.{Ring}
use rtai.Sem.{rte_timout, rte_unblkd, rte_objrem}

-- state &= ~(RT_SCHED_MBXSUSP | RT_SCHED_DELAYED)
abbrev clear_mbxsusp : TaskState → TaskState
clear_mbxsusp s = record s { mbxsusp = false; delayed = false }

abbrev set_waiting : ℕ → Option ℕ → Kernel → Kernel
set_waiting m w k = set_mbx m (record (k.mbxs m) { waiting_task = w }) k

-- how many bytes a mailbox has left, or holds: the two counters that a service waits for
abbrev pub frbs_of : Ring → ℕ
frbs_of r = r.frbs

abbrev pub avbs_of : Ring → ℕ
avbs_of r = r.avbs

-- `retval` as an int: 0 for NULL, the number of an RTP_ value, the address of anything else
int_of : (Blocked → ℤ) → Blocked → ℤ
int_of address null = pos 0
int_of address (rtp e) = pos e
int_of address other = address other

-- what mbx_wait_until makes of blocked_on; RTP_HIGERR is 11 and RTP_UNBLKD is 2
until_code : Blocked → ℤ
until_code null = pos 0
until_code (rtp e) = if ltb 11 e then rte_timout else if e == 2 then rte_unblkd else rte_objrem
until_code other = rte_timout

-- The semaphore of a mailbox is taken without a wait: `sndsem.count = 0`, and the ownership.
pub take_now : ℕ → Kernel → Kernel
take_now s k =
    let m = k.sems s in
    let k' : Kernel = set_sem s (record m { count = pos 0 }) k in
    if ltb_ℤ (pos 0) m.type
    then enqueue_resqel k.current (set_sem s (record (k'.sems s) { owndby = task k.current }) k')
    else k'

-- the state bits and the link of a task that is about to wait for a mailbox
about_to_wait : Bool → Kernel → Kernel
about_to_wait timed k =
    let c = k.current in
    let x = k.tasks c in
    rem_ready_current c (
      set_task c
        (record x { state = record x.state { mbxsusp = true; delayed = timed || x.state.delayed } })
        k)

module _ (rt_schedule : Kernel → Kernel) where
  -- The task that waits for the mailbox, if there is one, goes on with `b` for its blocked_on.
  mbx_signal_with : Blocked → ℕ → Kernel → Kernel
  mbx_signal_with b m k = elim (k.mbxs m).waiting_task [
    | none ↦ k
    | some t ↦
        let k₁ = rem_timed_task t k in
        let x : Task = record (k₁.tasks t) { blocked_on = b } in
        let k₂ : Kernel = set_waiting m none (set_task t x k₁) in
        let state = clear_mbxsusp x.state in
        if is_ready x.state
        then k₂
        else if is_ready state
        then rt_schedule (enq_ready_task t (set_task t (record x { state = state }) k₂))
        else set_task t (record x { state = state }) k₂
  ]

  pub mbx_signal : ℕ → Kernel → Kernel
  mbx_signal m k = mbx_signal_with null m k

  -- RTP_OBJREM is 4.
  pub mbx_delete_signal : ℕ → Kernel → Kernel
  mbx_delete_signal m k = mbx_signal_with (rtp 4) m k

  -- The end of a wait: NULL in blocked_on is success, all else is handed back.
  waited : (Blocked → ℤ) → ℕ → ℕ → Kernel → ℤ × Kernel
  waited code m c k = elim (k.tasks c).blocked_on [
    | null ↦ (pos 0, k)
    | other ↦ (code other, set_waiting m none k)
  ]

  pub mbx_wait : (Blocked → ℤ) → ℕ → (Ring → ℕ) → Kernel → ℤ × Kernel
  mbx_wait address m fravbs k =
      let c = k.current in
      let k₁ = about_to_wait false k in
      let k₂ : Kernel =
        set_waiting m (some c) (set_task c (record (k₁.tasks c) { blocked_on = mailbox m }) k₁) in
      if fravbs (k.mbxs m).ring == 0
      then waited (int_of address) m c (rt_schedule k₂)
      else (pos 0, k)

  pub mbx_wait_until : ℕ → (Ring → ℕ) → ℕ → Kernel → ℤ × Kernel
  mbx_wait_until m fravbs time k =
      let c = k.current in
      let k₁ : Kernel =
        set_waiting m (some c)
          (set_task c (record (k.tasks c) { blocked_on = mailbox m; resume_time = time }) k) in
      if fravbs (k.mbxs m).ring == 0
      then waited until_code m c
          (if ltb k.time_h time then rt_schedule (enq_timed_task c (about_to_wait true k₁)) else k₁)
      else (pos 0, k)
