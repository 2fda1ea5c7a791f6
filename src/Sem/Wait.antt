-- ===== src/Sem/Wait.antt =====
-- src/ipc/sem/sem.c: rt_sem_wait, rt_sem_wait_if, rt_sem_wait_until.
pub mod Uncontended
pub mod Balance
pub mod Elsewhere
mod Tests
use rtai.Base.{ℕ, Bool, true, false, not, ◌&&◌, ◌||◌, leb, ltb, ◌==◌, if◌then◌else◌, none}
use rtai.Base.Int.{ℤ, pos, ◌+ℤ◌, ◌-ℤ◌, ltb_ℤ, leb_ℤ, eq_ℤ}
use rtai.Kernel.{
  TaskState, Blocked, Owner, null, rtp, sem_queue, nobody, task, number, Kernel, set_task, set_sem,
}
use rtai.Sched.{
  rem_ready_task, rem_ready_current, enq_timed_task, enqueue_blocked, dequeue_blocked, priority_of,
}
use rtai.Prio.{enqueue_resqel, set_task_prio_from_resq, pass_prio}
use rtai.Sem.{rte_objinv, rte_deadlok, rte_unblkd, rte_timout, rte_objrem, count_up, owned_by}

-- A service returns its value, or goes on after a decision.
pub data Attempt : Type 0 where
  returns : ℤ → Kernel → Attempt
  goes_on : Kernel → Attempt

pub count_down : ℕ → Kernel → Kernel
count_down s k = set_sem s (record (k.sems s) { count = (k.sems s).count -ℤ pos 1 }) k

-- `enqueue_resqel(&sem->resq, sem->owndby = rt_current)`
pub take_over : ℕ → ℕ → Kernel → Kernel
take_over s c k = enqueue_resqel c (set_sem s (record (k.sems s) { owndby = task c }) k)

-- `if (sem->type > 0) enqueue_resqel(...)`, at the end of a wait that got the semaphore
pub acquired : ℕ → ℕ → Kernel → Kernel
acquired s c k = if ltb_ℤ (pos 0) (k.sems s).type then take_over s c k else k

-- the state bits of a task that waits for a semaphore, and for a time as well
abbrev pub waiting : Bool → TaskState → TaskState
waiting timed b = record b { semaphore = true; delayed = timed || b.delayed }

-- The owner that has not run since it was given the semaphore is put back in the queue: the first
-- two branches of the macro, then what they share.
set_back : ℕ → ℕ → ℕ → Kernel → Kernel
set_back s t c k =
    let x = k.tasks t in
    let down = rem_ready_task t (count_down s k) in
    let idle =
      set_task t (record (down.tasks t) { state = waiting false (down.tasks t).state }) down in
    let timed =
      set_task t (record (down.tasks t) { state = waiting true (down.tasks t).state }) down in
    take_over s c (
      enqueue_blocked t s false (
        if eq_ℤ x.running (pos 0)
        then idle
        else if ltb k.time_h x.resume_time
        then enq_timed_task t timed
        else k))

-- UBI_MAIOR_MINOR_CESSAT_WAIT: a task of higher priority takes the semaphore over.
pub ubi_maior : ℕ → Kernel → Attempt
ubi_maior s k =
    let c = k.current in
    elim (k.sems s).owndby [
      | nobody ↦ goes_on k
      | number n ↦ goes_on k
      | task t ↦
          if ltb (priority_of k c) (priority_of k t) && leb_ℤ (k.tasks t).running (pos 0)
          then returns (pos 1) (set_back s t c k)
          else goes_on k
    ]

-- A lock that the caller owns: one level more, or a deadlock. The value is `count + 1`, where count
-- is the old type.
pub nested : ℕ → Kernel → Attempt
nested s k =
    let m = k.sems s in
    if not (eq_ℤ m.restype (pos 0)) && owned_by m k.current
    then (if ltb_ℤ (pos 0) m.restype
        then returns (m.type +ℤ pos 1) (set_sem s (record m { type = m.type +ℤ pos 1 }) k)
        else returns rte_deadlok k)
    else goes_on k

-- `state |= ...; rem_ready_current(rt_current); enqueue_blocked(rt_current, ...)`
pub block_current : ℕ → Bool → Kernel → Kernel
block_current s timed k =
    let c = k.current in
    let x = k.tasks c in
    let k₁ : Kernel = set_task c (record x { state = waiting timed x.state }) k in
    enqueue_blocked c s (k.sems s).qtype (rem_ready_current c k₁)

-- What blocked_on tells a task that goes on: NULL, RTP_OBJREM (4), or anything else.
pub data Wakeup : Type 0 where
  got : Wakeup
  removed : Wakeup
  interrupted : Wakeup

pub wakeup_of : Blocked → Wakeup
wakeup_of null = got
wakeup_of (rtp e) = if e == 4 then removed else interrupted
wakeup_of other = interrupted

-- `retp > RTP_HIGERR ? RTE_TIMOUT : RTE_UNBLKD`; RTP_HIGERR is 11.
interruption_code : Blocked → ℤ
interruption_code (rtp e) = if ltb 11 e then rte_timout else rte_unblkd
interruption_code other = rte_timout

-- `if (sem->owndby && sem->type > 0) set_task_prio_from_resq(sem->owndby);`
pub reset_prio : Owner → Bool → Kernel → Kernel
reset_prio nobody resource k = k
reset_prio (number n) resource k = k
reset_prio (task t) resource k = if resource then (set_task_prio_from_resq t k).1 else k

-- The count and the priorities, when a task stops waiting without having got the semaphore.
pub withdraw : ℕ → ℕ → Kernel → Kernel
withdraw s c k =
    let k₁ = dequeue_blocked c s k in
    let k₂ : Kernel = set_sem s (count_up (k₁.sems s)) k₁ in
    reset_prio (k₂.sems s).owndby (ltb_ℤ (pos 0) (k₂.sems s).type) k₂

pub forget_prio : ℕ → Kernel → Kernel
forget_prio c k = set_task c (record (k.tasks c) { prio_passed_to = none }) k

module _ (ntasks : ℕ) (rt_schedule : Kernel → Kernel) where
  -- `if (sem->type > 0) schedmap = pass_prio(sem->owndby, rt_current);`
  pub boost_owner : ℕ → Kernel → Kernel
  boost_owner s k =
      if ltb_ℤ (pos 0) (k.sems s).type then pass_prio ntasks (k.sems s).owndby k.current k else k

  -- what a wait does once it is clear that it blocks, up to rt_schedule()
  pub block_on : ℕ → Bool → Kernel → Kernel
  block_on s timed k = block_current s timed (count_down s (boost_owner s k))

  -- The checks before a wait blocks, for a resource only.
  pub may_block : ℕ → Kernel → Attempt
  may_block s k =
      if ltb_ℤ (pos 0) (k.sems s).type
      then elim (ubi_maior s k) [ returns r k' ↦ returns r k' | goes_on k' ↦ nested s k' ]
      else goes_on k

  -- rt_sem_wait after rt_schedule() has returned to the caller c
  pub resume_wait : ℕ → ℕ → Kernel → ℤ × Kernel
  resume_wait s c k = elim (wakeup_of (k.tasks c).blocked_on) [
    | got ↦ ((k.sems s).count, acquired s c k)
    | removed ↦ (rte_objrem, forget_prio c k)
    | interrupted ↦ (rte_unblkd, withdraw s c k)
  ]

  pub rt_sem_wait : ℕ → Kernel → ℤ × Kernel
  rt_sem_wait s k =
      let m = k.sems s in
      let c = k.current in
      if not m.magic
      then (rte_objinv, k)
      else if leb_ℤ m.count (pos 0)
      then elim (may_block s k) [
        | returns r k' ↦ (r, k')
        | goes_on k' ↦ resume_wait s c (rt_schedule (block_on s false k'))
      ]
      else (m.count, acquired s c (count_down s k))

  pub rt_sem_wait_if : ℕ → Kernel → ℤ × Kernel
  rt_sem_wait_if s k =
      let m = k.sems s in
      if not m.magic
      then (rte_objinv, k)
      else if leb_ℤ m.count (pos 0)
      then elim (if ltb_ℤ (pos 0) m.type then ubi_maior s k else goes_on k) [
        | returns r k' ↦ (r, k')
        | goes_on k' ↦ elim (nested s k') [ returns r k₂ ↦ (r, k₂) | goes_on k₂ ↦ (m.count, k₂) ]
      ]
      else (m.count, acquired s k.current (count_down s k))

  -- rt_sem_wait_until after rt_schedule(), or at once if the time is past
  resume_wait_until : ℕ → ℕ → Kernel → ℤ × Kernel
  resume_wait_until s c k = elim (wakeup_of (k.tasks c).blocked_on) [
    | got ↦ ((k.sems s).count, acquired s c k)
    | removed ↦ (rte_objrem, forget_prio c k)
    | interrupted ↦ (interruption_code (k.tasks c).blocked_on, withdraw s c k)
  ]

  pub rt_sem_wait_until : ℕ → ℕ → Kernel → ℤ × Kernel
  rt_sem_wait_until s time k =
      let m = k.sems s in
      let c = k.current in
      let k₁ : Kernel =
        set_task c (record (k.tasks c) { blocked_on = sem_queue s; resume_time = time }) k in
      if not m.magic
      then (rte_objinv, k)
      else if leb_ℤ m.count (pos 0)
      then (if ltb k.time_h time
          then elim (may_block s k₁) [
            | returns r k' ↦ (r, k')
            | goes_on k' ↦
                resume_wait_until s c (rt_schedule (enq_timed_task c (block_on s true k')))
          ]
          else resume_wait_until s c (count_down s k₁))
      else (m.count, acquired s c (count_down s k))
