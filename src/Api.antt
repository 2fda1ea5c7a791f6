-- ===== src/Api.antt =====
-- src/sched/api.c: the services that suspend and resume tasks, and rt_task_yield, on one processor.
-- Where the source takes NULL for the running task, the model takes that task's number. `rt_schedule`
-- is the step from a call of rt_schedule() to its return.
pub mod Depth
pub mod Prio
pub mod Period
pub mod Unblock
mod Tests
use rtai.Base.{
  ℕ, zero, suc, ◌+◌, ◌==◌, ltb, List, [], ◌∷◌, ◌++◌, Bool, true, false, not, ◌&&◌, ◌||◌,
  if◌then◌else◌,
}
use rtai.Base.Int.{ℤ, pos, negsuc, ◌+ℤ◌, ◌-ℤ◌, ltb_ℤ, eq_ℤ}
use rtai.Kernel.{
  TaskState, is_ready, Blocked, null, rtp, itself, Task, Kernel, set_task, update, unlink,
}
use rtai.Sched.{
  priority_of, enq_ready_task, rem_ready_task, rem_ready_current, enq_timed_task, rem_timed_task,
}
use rtai.Sem.{rte_base, rte_unblkd, rte_timout}

-- -EINVAL
abbrev pub einval : ℤ
einval = negsuc 21

-- RTE_TMROVRN, and RT_TMROVRN is 1
abbrev pub rte_tmrovrn : ℤ
rte_tmrovrn = pos (rte_base + 1)

-- `!task_owns_sems(task) && !task->suspdepth`
pub suspends_now : Task → Bool
suspends_now x = x.owndres == 0 && eq_ℤ x.suspdepth (pos 0)

abbrev pub add_depth : ℕ → ℤ → Kernel → Kernel
add_depth t d k = set_task t (record (k.tasks t) { suspdepth = d }) k

-- state |= RT_SCHED_SUSPENDED, and RT_SCHED_DELAYED if `timed`
abbrev mark_suspended : Bool → TaskState → TaskState
mark_suspended timed b = record b { suspended = true; delayed = timed || b.delayed }

abbrev set_state : ℕ → TaskState → Kernel → Kernel
set_state t b k = set_task t (record (k.tasks t) { state = b }) k

-- A suspension past which a code of 0 stands for success, by what blocked_on holds.
suspension_code : Blocked → ℤ
suspension_code null = pos 0
suspension_code (rtp e) = if ltb 11 e then rte_timout else rte_unblkd
suspension_code other = rte_timout

is_null : Blocked → Bool
is_null null = true
is_null other = false

-- The list in which the first task, that yields, stands behind those of its priority.
unfoldable pub yielded : (ℕ → ℕ) → ℕ → List ℕ → List ℕ
yielded key t [] = t ∷ []
yielded key t (x ∷ xs) =
    let rest = yielded key t xs in if key x == key t then x ∷ rest else t ∷ x ∷ xs

module _ (rt_schedule : Kernel → Kernel) (get_time : Kernel → ℕ) where
  -- The running task: it is taken off the ready list, and comes back when it is resumed.
  suspend_self : ℕ → Kernel → ℤ × Kernel
  suspend_self t k =
      let k₁ =
        rem_ready_current t
          (set_task t (record (k.tasks t) { suspdepth = pos 1; blocked_on = itself t }) k) in
      let k₂ = rt_schedule (set_state t (mark_suspended false (k₁.tasks t).state) k₁) in
      (if is_null (k₂.tasks t).blocked_on then (k₂.tasks t).suspdepth else rte_unblkd, k₂)

  -- Another task.
  suspend_other : ℕ → Kernel → ℤ × Kernel
  suspend_other t k =
      let k₁ = rem_timed_task t (rem_ready_task t (add_depth t (pos 1) k)) in
      ((k₁.tasks t).suspdepth, set_state t (mark_suspended false (k₁.tasks t).state) k₁)

  pub rt_task_suspend : ℕ → Kernel → ℤ × Kernel
  rt_task_suspend t k =
      let x = k.tasks t in
      if not x.magic
      then (einval, k)
      else if suspends_now x
      then (if t == k.current then suspend_self t k else suspend_other t k)
      else (x.suspdepth +ℤ pos 1, add_depth t (x.suspdepth +ℤ pos 1) k)

  rt_task_suspend_if : ℕ → Kernel → ℤ × Kernel
  rt_task_suspend_if t k =
      let x = k.tasks t in
      if not x.magic
      then (einval, k)
      else if ltb_ℤ x.suspdepth (pos 0)
      then (x.suspdepth +ℤ pos 1, add_depth t (x.suspdepth +ℤ pos 1) k)
      else (x.suspdepth, k)

  suspend_self_until : ℕ → Kernel → ℤ × Kernel
  suspend_self_until t k =
      let k₁ =
        enq_timed_task t
          (rem_ready_current t (set_task t (record (k.tasks t) { blocked_on = itself t }) k)) in
      let k₂ = rt_schedule (set_state t (mark_suspended true (k₁.tasks t).state) k₁) in
      let code = suspension_code (k₂.tasks t).blocked_on in
      (if eq_ℤ code (pos 0) then (k₂.tasks t).suspdepth else code, k₂)

  suspend_other_until : ℕ → Kernel → ℤ × Kernel
  suspend_other_until t k =
      let k₁ = rem_ready_task t k in
      let k₂ = if (k₁.tasks t).state.delayed then k₁ else enq_timed_task t k₁ in
      ((k₂.tasks t).suspdepth, set_state t (mark_suspended true (k₂.tasks t).state) k₂)

  -- The time of resumption is set even where it has passed.
  rt_task_suspend_until : ℕ → ℕ → Kernel → ℤ × Kernel
  rt_task_suspend_until t time k =
      let x = k.tasks t in
      let k₁ : Kernel = set_task t (record x { resume_time = time }) k in
      let k₂ : Kernel = add_depth t (pos 1) k₁ in
      if not x.magic
      then (einval, k)
      else if suspends_now x
      then (if ltb k.time_h time
          then (if t == k.current then suspend_self_until t k₂ else suspend_other_until t k₂)
          else (rte_tmrovrn, k₁))
      else (x.suspdepth +ℤ pos 1, add_depth t (x.suspdepth +ℤ pos 1) k)

  rt_task_suspend_timed : ℕ → ℕ → Kernel → ℤ × Kernel
  rt_task_suspend_timed t delay k = rt_task_suspend_until t (get_time k + delay) k

  -- state &= ~(RT_SCHED_SUSPENDED | RT_SCHED_DELAYED), and the task made ready if nothing is left
  pub unsuspend : ℕ → Kernel → Kernel
  unsuspend t k =
      let x = k.tasks t in
      let state : TaskState = record x.state { suspended = false; delayed = false } in
      if is_ready state
      then rt_schedule
          (enq_ready_task t (set_task t (record x { state = state; blocked_on = null }) k))
      else set_state t state k

  -- what the last resumption does
  pub resume_now : ℕ → Kernel → Kernel
  resume_now t k = unsuspend t (rem_timed_task t k)

  pub rt_task_resume : ℕ → Kernel → ℤ × Kernel
  rt_task_resume t k =
      let x = k.tasks t in
      let depth = x.suspdepth -ℤ pos 1 in
      if not x.magic then (einval, k) else (
        pos 0,
        if eq_ℤ depth (pos 0) then resume_now t (add_depth t depth k) else add_depth t depth k,
      )

  -- The running task lets those of its priority go first, if it is the first of the ready tasks.
  rt_task_yield : Kernel → Kernel
  rt_task_yield k = elim k.ready [
    | [] ↦ rt_schedule k
    | t ∷ ts ↦
        if t == k.current
        then elim ts [
          | [] ↦ k
          | u ∷ us ↦
              if priority_of k u == priority_of k t
              then rt_schedule (record k { ready = yielded (priority_of k) t (u ∷ us) })
              else k
        ]
        else rt_schedule k
  ]
