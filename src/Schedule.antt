-- ===== src/Schedule.antt =====
-- src/sched/sched.c: the choice of the next task by rt_schedule() and rt_timer_handler(), round robin, the
-- lock of the scheduler, priorities by periods, and the processor with the fewest tasks. The switch of
-- stacks is left out: from the choice on the chosen task is the running one.
-- Configuration: one processor, CONFIG_RTAI_ALLOW_RR.
pub mod RoundRobin
pub mod Rms
mod Tests
use rtai.Base.{
  ℕ, zero, suc, ◌+◌, ◌-◌, ◌==◌, leb, ltb, List, [], ◌∷◌, Bool, true, false, not, ◌&&◌, ◌||◌,
  if◌then◌else◌,
}
use rtai.Base.Int.{pos, ltb_ℤ}
use rtai.Kernel.{Task, is_ready, Kernel, set_task, unlink}
use rtai.Sched.{priority_of, wake_up_timed_tasks}
use rtai.Api.{yielded}

-- A processor: rt_times.tick_time, and rt_scheduling[cpuid].
pub record Processor : Type 0 where
  pub kernel : Kernel
  pub tick_time : ℕ
  pub locked : ℕ
  pub rqsted : Bool

-- The walk of RR_YIELD from the task c on: it goes behind those of its priority.
unfoldable pub rotate : (ℕ → ℕ) → ℕ → List ℕ → List ℕ
rotate key c [] = []
rotate key c (x ∷ xs) = let rest = rotate key c xs in if x == c then yielded key c xs else x ∷ rest

-- RR_YIELD: a task whose quantum is used up gives way, and another keeps what is left of it.
pub rr_yield : ℕ → Kernel → Kernel
rr_yield tick k =
    let c = k.current in
    let x = k.tasks c in
    let full : Kernel = set_task c (record x { rr_remaining = x.rr_quantum }) k in
    let part : Kernel = set_task c (record x { rr_remaining = x.yield_time - tick }) k in
    let turned : Kernel = record full { ready = rotate (priority_of k) c k.ready } in
    if ltb_ℤ (pos 0) x.policy
    then (if leb x.yield_time tick then (if is_ready x.state then turned else full) else part)
    else k

-- TASK_TO_SCHEDULE, for a task that has been chosen
pub give_quantum : ℕ → ℕ → Kernel → Kernel
give_quantum tick t k =
    let x : Task = record (k.tasks t) { running = pos 1 } in
    if ltb_ℤ (pos 0) x.policy
    then set_task t (record x { yield_time = tick + x.rr_remaining }) k
    else set_task t x k

-- The first of the ready tasks, which is the Linux task behind all others.
unfoldable pub new_task : ℕ → List ℕ → ℕ
new_task linux [] = linux
new_task linux (t ∷ ts) = t

-- `new_task->is_hard > 0 || rt_current->is_hard > 0`. A task of the kernel alone is hard, so that this
-- holds wherever switch_rtai_tasks changes the running task. The value -1 that is_hard has while a
-- task is being made hard is left out.
unfoldable pub either_hard : ℕ → Kernel → Bool
either_hard t k = (k.tasks t).is_hard || (k.tasks k.current).is_hard

-- A chosen task that is not the running one has to wait while the scheduler is locked. `changes` is whether
-- rt_smp_current becomes the chosen task.
pub switch_to : Bool → ℕ → Processor → Processor
switch_to changes t p =
    let k : Kernel = p.kernel in
    if t == k.current
    then p
    else if not (p.locked == 0)
    then record p { rqsted = true }
    else if changes
    then record p { kernel = record k { current = t } }
    else p

-- rt_schedule(), where `now` is rtai_rdtsc() + rt_half_tick. The quantum is judged by the last tick. The
-- tasks that are due are woken, the first of the ready ones is chosen, and rt_smp_current is set to it
-- before is_hard is tested. `linux` is the number of the Linux task.
pub rt_schedule : ℕ → ℕ → Processor → Processor
rt_schedule linux now p =
    let k : Kernel = rr_yield p.tick_time p.kernel in
    let l = wake_up_timed_tasks (record k { time_h = now }) in
    let t = new_task linux l.ready in
    switch_to true t (record p { kernel = give_quantum p.tick_time t l })

-- What rt_timer_handler() does with the tasks woken: rt_smp_current is set only if is_hard says so.
pub choose : ℕ → ℕ → Kernel → Processor → Processor
choose linux tick k p =
    let t = new_task linux k.ready in
    let l = give_quantum tick t k in switch_to (either_hard t l) t (record p { kernel = l })

-- rt_timer_handler(), at the time `now`; `half_tick` is rt_half_tick.
pub rt_timer_handler : ℕ → ℕ → ℕ → Processor → Processor
rt_timer_handler linux half_tick now p =
    let k : Kernel = rr_yield now (record p.kernel { time_h = now + half_tick }) in
    choose linux now (wake_up_timed_tasks k) (record p { tick_time = now })

rt_sched_lock : Processor → Processor
rt_sched_lock p =
    if p.locked == 0
    then record p { locked = 1; rqsted = false }
    else record p { locked = p.locked + 1 }

-- The last unlock makes up for the scheduling that was asked for in between.
rt_sched_unlock : ℕ → ℕ → Processor → Processor
rt_sched_unlock linux now p =
    let q : Processor = record p { locked = p.locked - 1 } in
    if p.locked == 0
    then p
    else if p.locked == 1 && p.rqsted
    then rt_schedule linux now (record q { rqsted = false })
    else q

-- get_min_tasks_cpuid: of the processors behind the first, by number, those that are allowed and have fewer
-- tasks than all before.
min_tasks_from : (ℕ → Bool) → List (ℕ × ℕ) → ℕ × ℕ → ℕ
min_tasks_from allowed [] best = best.0
min_tasks_from allowed ((i, n) ∷ cpus) best =
    let next : ℕ × ℕ = if allowed i && ltb n best.1 then (i, n) else best in
    min_tasks_from allowed cpus next

get_min_tasks_cpuid : (ℕ → Bool) → ℕ → List (ℕ × ℕ) → ℕ
get_min_tasks_cpuid allowed first cpus = min_tasks_from allowed cpus (0, first)
