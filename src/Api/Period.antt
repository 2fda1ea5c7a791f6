-- ===== src/Api/Period.antt =====
-- src/sched/api.c: periods, sleep and the times at which tasks are resumed.
pub mod Late
use rtai.Base.{
  ℕ, ◌+◌, ◌==◌, ltb, leb, List, [], ◌∷◌, Bool, true, false, not, if◌then◌else◌, Option, none, some,
}
use rtai.Base.Int.{ℤ, pos, negsuc}
use rtai.Kernel.{Task, TaskState, Blocked, null, rtp, Kernel, set_task}
use rtai.Sched.{rem_ready_task, rem_ready_current, enq_timed_task, rem_timed_task, resume_time_of}
use rtai.Sem.{rte_unblkd}
use rtai.Api.{einval, rte_tmrovrn, is_null}

-- -ETIME
abbrev pub etime : ℤ
etime = negsuc 61

abbrev pub delay : ℕ → Kernel → Kernel
delay t k =
    let x = k.tasks t in set_task t (record x { state = record x.state { delayed = true } }) k

-- The first resumption and the period, and a task that is not delayed is made to wait.
start_periodic : ℕ → ℕ → ℕ → Kernel → Kernel
start_periodic t start period k =
    let k₁ : Kernel =
      set_task t
        (record (k.tasks t) {
          periodic_resume_time = start;
          resume_time = start;
          period = period;
          suspdepth = pos 0;
        })
        k in
    let l = rem_ready_task t k₁ in
    let x = l.tasks t in
    if (k₁.tasks t).state.delayed
    then k₁
    else enq_timed_task t
        (set_task t (record x { state = record x.state { suspended = false; delayed = true } }) l)

-- The task whose resumption is next behind that of t; none is the Linux task.
next_timed : ℕ → List ℕ → Option ℕ
next_timed t [] = none
next_timed t (u ∷ us) =
    let rest = next_timed t us in if u == t then elim us [ [] ↦ none | v ∷ vs ↦ some v ] else rest

-- a positive time, or a distance from another one
abbrev from_time : ℕ → ℤ → ℕ
from_time time (pos n) = if n == 0 then time else n
from_time time (negsuc n) = time + n + 1

module _ (rt_schedule : Kernel → Kernel) (get_time : Kernel → ℕ) (rdtsc : Kernel → ℕ) where
  rt_task_make_periodic : ℕ → ℕ → ℕ → Kernel → ℤ × Kernel
  rt_task_make_periodic t start period k =
      if not (k.tasks t).magic
      then (einval, k)
      else (pos 0, rt_schedule (start_periodic t start period k))

  rt_task_make_periodic_relative_ns : (ℕ → ℕ) → ℕ → ℕ → ℕ → Kernel → ℤ × Kernel
  rt_task_make_periodic_relative_ns nano2count t start_delay period k =
      let start = get_time k + nano2count start_delay in
      if not (k.tasks t).magic
      then (einval, k)
      else (pos 0, rt_schedule (start_periodic t start (nano2count period) k))

  -- The running task waits for its time of resumption: the state at the call of rt_schedule().
  pub fall_asleep : ℕ → Kernel → Kernel
  fall_asleep time k =
      let c = k.current in
      let x : Task = record (k.tasks c) { resume_time = time; blocked_on = null } in
      enq_timed_task c (rem_ready_current c (delay c (set_task c x k)))

  -- Woken by time, blocked_on is still NULL.
  pub sleep_code : ℕ → Kernel → ℤ × Kernel
  sleep_code c k = (if is_null (k.tasks c).blocked_on then pos 0 else rte_unblkd, k)

  -- The release that is asked for by the watchdog starts at once.
  rt_task_wait_period : Kernel → ℤ × Kernel
  rt_task_wait_period k =
      let c = k.current in
      let x = k.tasks c in
      let next = x.periodic_resume_time + x.period in
      let k₁ : Kernel = set_task c (record x { periodic_resume_time = next }) k in
      let now : Task = record x {
        resync_frame = false;
        periodic_resume_time = rdtsc k;
        resume_time = rdtsc k;
      } in
      if x.resync_frame
      then (rte_tmrovrn, set_task c now k)
      else if ltb k.time_h next
      then sleep_code c (rt_schedule (fall_asleep next k₁))
      else (rte_tmrovrn, k₁)

  pub rt_sleep_until : ℕ → Kernel → ℤ × Kernel
  rt_sleep_until time k =
      let c = k.current in
      if ltb k.time_h time
      then sleep_code c (rt_schedule (fall_asleep time k))
      else (rte_tmrovrn, set_task c (record (k.tasks c) { resume_time = time }) k)

  rt_sleep : ℕ → Kernel → ℤ × Kernel
  rt_sleep delay k = rt_sleep_until (get_time k + delay) k

  -- For a task under the deadline policy, whose period is its deadline.
  rt_task_set_resume_end_times : ℤ → ℤ → Kernel → Kernel
  rt_task_set_resume_end_times resume end k =
      let c = k.current in
      let x = k.tasks c in
      let time = from_time x.resume_time resume in
      let x' : Task = record x {
        policy = negsuc 0;
        priority = 0;
        resume_time = time;
        period = from_time time end;
      } in
      rt_schedule (enq_timed_task c (rem_ready_current c (delay c (set_task c x' k))))

-- The new time is stored, but the task is moved only if it is later than that of the next task.
pub rt_set_resume_time : ℕ → ℕ → Kernel → ℤ × Kernel
rt_set_resume_time t time k =
    let k₁ : Kernel = set_task t (record (k.tasks t) { resume_time = time }) k in
    if not (k.tasks t).magic
    then (einval, k)
    else if not (k.tasks t).state.delayed
    then (etime, k)
    else elim (next_timed t k.timed) [
      | none ↦ (etime, k₁)
      | some u ↦
          if ltb (resume_time_of k₁ u) time
          then (pos 0, enq_timed_task t (rem_timed_task t k₁))
          else (etime, k₁)
    ]

rt_set_period : ℕ → ℕ → Kernel → ℤ × Kernel
rt_set_period t period k =
    if not (k.tasks t).magic
    then (einval, k)
    else (pos 0, set_task t (record (k.tasks t) { period = period }) k)

next_period : Kernel → ℕ
next_period k = let x = k.tasks k.current in x.periodic_resume_time + x.period
