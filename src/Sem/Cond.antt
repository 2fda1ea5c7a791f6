-- ===== src/Sem/Cond.antt =====
-- src/ipc/sem/sem.c: condition variables, barriers and rt_sem_wait_timed.
use rtai.Base.{ℕ, ◌+◌, ◌==◌, ltb, Bool, true, false, not, ◌||◌, if◌then◌else◌, none, some}
use rtai.Base.Int.{ℤ, pos, negsuc, pos_part, ◌+ℤ◌, ◌-ℤ◌, ltb_ℤ}
use rtai.Kernel.{Blocked, null, rtp, Owner, nobody, task, number, Sem, Kernel, set_task, set_sem}
use rtai.Sched.{enq_timed_task, dequeue_blocked}
use rtai.Prio.{dequeue_resqel_reset_task_priority}
use rtai.Sem.{
  rte_objinv, rte_perm, rte_objrem, rte_unblkd, rte_timout, rte_lowerr, release, head?,
  minus_delayed, owned_by,
}
use rtai.Sem.Signal.{rt_sem_broadcast}
use rtai.Sem.Wait.{block_current, rt_sem_wait, rt_sem_wait_until}

-- What a mutex is before it is given up: one level, one count more and at most 1.
unlocked : Sem → Sem
unlocked m =
    let c = m.count +ℤ pos 1 in
    record m {
      type = if ltb_ℤ (pos 1) m.type then pos 1 else m.type;
      count = if ltb_ℤ (pos 1) c then pos 1 else c;
    }

-- the first waiting task let go, before the mutex has no owner any more
let_go : ℕ → Kernel → Kernel
let_go s k = elim (head? (k.sems s).queue) [
  | none ↦ k
  | some t ↦
      let (woken, k') = release t s k in
      let x = k'.tasks t in
      if woken then set_task t (record x { running = minus_delayed x.state }) k' else k'
]

-- What cond_wait makes of blocked_on; RTP_OBJREM is 4, and `late` stands for what is beyond RTP_HIGERR.
cond_code : ℤ → Blocked → ℤ
cond_code late null = pos 0
cond_code late (rtp e) = if e == 4 then rte_objrem else if ltb 11 e then late else rte_unblkd
cond_code late other = late

-- A task that was not woken by a signal, nor by a deletion, leaves the queue itself.
leave_queue : ℕ → ℕ → Kernel → Kernel
leave_queue c cnd k = elim (k.tasks c).blocked_on [
  | null ↦ k
  | rtp e ↦ if e == 4 then k else dequeue_blocked c cnd k
  | other ↦ dequeue_blocked c cnd k
]

-- The number in owndby, which is 0 for NULL, against an integer. The address of a task is beyond any.
below_owner : ℤ → Owner → Bool
below_owner c nobody = ltb_ℤ c (pos 0)
below_owner c (number n) = ltb_ℤ c (pos n)
below_owner c (task t) = true

-- The first task at a barrier makes the count of the semaphore the number of tasks to wait for.
open_barrier : Sem → Sem
open_barrier m = elim m.owndby [
  | nobody ↦ record m {
    owndby = number (if ltb_ℤ m.count (pos 1) then 1 else pos_part m.count);
    count = pos 0;
    type = pos 0;
  }
  | other ↦ m
]

module _ (ntasks : ℕ) (rt_schedule : Kernel → Kernel) (rt_task_delete : ℕ → Kernel → Kernel)
    (get_time : Kernel → ℕ) where
  rt_sem_wait_timed : ℕ → ℕ → Kernel → ℤ × Kernel
  rt_sem_wait_timed s delay k = rt_sem_wait_until ntasks rt_schedule s (get_time k + delay) k

  rt_sem_wait_barrier : ℕ → Kernel → ℤ × Kernel
  rt_sem_wait_barrier s k =
      let m = open_barrier (k.sems s) in
      let k' : Kernel = set_sem s m k in
      if not (k.sems s).magic
      then (rte_objinv, k)
      else if below_owner (pos 1 -ℤ m.count) m.owndby
      then (negsuc 0, (rt_sem_wait ntasks rt_schedule s k').1)
      else (pos 0, (rt_sem_broadcast rt_schedule rt_task_delete s k').1)

  -- The value is the level of the mutex, which the task takes up again after the wait.
  rt_cndmtx_signal : ℕ → ℕ → Kernel → ℤ × Kernel
  rt_cndmtx_signal mtx c k =
      let k₁ = let_go mtx (set_sem mtx (unlocked (k.sems mtx)) k) in
      let k₂ : Kernel = set_sem mtx (record (k₁.sems mtx) { owndby = nobody }) k₁ in
      ((k.sems mtx).type, rt_schedule (dequeue_resqel_reset_task_priority c k₂).1)

  -- the mutex taken again, at the level it had
  retake : ℕ → ℤ → ℤ → Kernel → ℤ × Kernel
  retake mtx type retval k =
      let (r, k') = rt_sem_wait ntasks rt_schedule mtx k in
      (
        retval,
        if ltb_ℤ r rte_lowerr then set_sem mtx (record (k'.sems mtx) { type = type }) k' else k',
      )

  rt_cond_wait : ℕ → ℕ → Kernel → ℤ × Kernel
  rt_cond_wait cnd mtx k =
      let c = k.current in
      let (type, k₁) = rt_cndmtx_signal mtx c (block_current cnd false k) in
      if not (k.sems cnd).magic || not (k.sems mtx).magic
      then (rte_objinv, k)
      else if not (owned_by (k.sems mtx) c)
      then (rte_perm, k)
      else retake mtx type (cond_code rte_unblkd (k₁.tasks c).blocked_on) (leave_queue c cnd k₁)

  -- A time that has passed leaves the mutex taken.
  rt_cond_wait_until : ℕ → ℕ → ℕ → Kernel → ℤ × Kernel
  rt_cond_wait_until cnd mtx time k =
      let c = k.current in
      let k₁ : Kernel = set_task c (record (k.tasks c) { resume_time = time }) k in
      let (type, k₂) = rt_cndmtx_signal mtx c (enq_timed_task c (block_current cnd true k₁)) in
      if not (k.sems cnd).magic || not (k.sems mtx).magic
      then (rte_objinv, k)
      else if not (owned_by (k.sems mtx) c)
      then (rte_perm, k)
      else if ltb k.time_h time
      then retake mtx type (cond_code rte_timout (k₂.tasks c).blocked_on) (leave_queue c cnd k₂)
      else (rte_timout, k₁)

  rt_cond_wait_timed : ℕ → ℕ → ℕ → Kernel → ℤ × Kernel
  rt_cond_wait_timed cnd mtx delay k = rt_cond_wait_until cnd mtx (get_time k + delay) k
