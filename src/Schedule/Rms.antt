-- ===== src/Schedule/Rms.antt =====
-- src/sched/sched.c: rt_spv_RMS, rate monotonic priorities. `all` is the list of the tasks of a processor,
-- from `rt_linux_task.next` on. A priority of -1 marks a task that has its new base priority; here it is
-- a mark beside the kernel, since a task's priority is a natural number.
pub mod Search
pub mod Settle
pub mod Order
use rtai.Base.{
  ℕ, ◌+◌, ◌==◌, ltb, List, [], ◌∷◌, Bool, true, false, not, ◌&&◌, if◌then◌else◌, Option, none, some,
}
use rtai.Base.Int.{pos, ltb_ℤ}
use rtai.Kernel.{Task, Kernel, set_task, update}

abbrev pub rtai_time_limit : ℕ
rtai_time_limit = 0x7000000000000000

-- `task->policy >= 0 && task->period`
abbrev pub is_periodic : Task → Bool
is_periodic x = not (ltb_ℤ x.policy (pos 0)) && not (x.period == 0)

-- The inner loop: the first of the unmarked periodic tasks with the shortest period, below `best`.
pub shortest : (ℕ → Bool) → (ℕ → Task) → List ℕ → ℕ → Option ℕ → Option ℕ
shortest marked tasks [] best found = found
shortest marked tasks (t ∷ ts) best found =
    let x = tasks t in
    let hit = not (marked t) && is_periodic x && ltb x.period best in
    shortest marked tasks ts (if hit then x.period else best) (if hit then some t else found)

-- The outer loop, as often as there are tasks; its own `task` is hidden by that of the inner one.
pub assign : List ℕ → List ℕ → ℕ → (ℕ → Bool) → Kernel → (ℕ → Bool) × Kernel
assign [] all prio marked k = (marked, k)
assign (r ∷ rounds) all prio marked k = elim (shortest marked k.tasks all rtai_time_limit none) [
  | none ↦ (marked, k)
  | some t ↦
      assign rounds all (prio + 1) (update marked t true)
        (set_task t (record (k.tasks t) { base_priority = prio }) k)
]

-- Every marked task gets its base priority for its priority.
pub settle : (ℕ → Bool) → List ℕ → Kernel → Kernel
settle marked [] k = k
settle marked (t ∷ ts) k =
    let x = k.tasks t in
    settle marked ts
      (if marked t then set_task t (record x { priority = x.base_priority }) k else k)

pub rt_spv_rms : List ℕ → Kernel → Kernel
rt_spv_rms all k = let r = assign all all 0 (λ t. false) k in settle r.0 all r.1
