-- ===== src/Api/Prio.antt =====
-- src/sched/api.c: the priority and the policy of a task. Where the source takes NULL for the running task,
-- the model takes that task's number; a pointer for a result that is NULL is left out.
use rtai.Base.{
  ℕ, zero, suc, ◌+◌, ◌%◌, ◌^◌, ◌==◌, leb, ltb, [], ◌∷◌, Bool, true, false, not, ◌||◌, ◌&&◌,
  if◌then◌else◌, Option, none, some,
}
use rtai.Base.Int.{ℤ, pos, negsuc}
use rtai.Kernel.{is_ready, Kernel, set_task, unlink}
use rtai.Sched.{priority_of, insert_after_equals}
use rtai.Prio.{
  queue_at, set_queue_at, is_first, waits_for_owner, ends, goes_on, stray, next_owner, reposition,
}
use rtai.Api.{einval}

abbrev base_soft_priority : ℕ
base_soft_priority = 1000000000

-- `(q & 0xF0000000) || !q`, for an int q
abbrev bad_quantum : ℕ → Bool
bad_quantum q = leb (2 ^ 28) q || q == 0

-- Any policy but 0 is round robin.
rt_set_sched_policy : (ℕ → ℕ) → ℕ → ℕ → Bool → ℕ → Kernel → Kernel
rt_set_sched_policy nano2count linux_tick t round_robin quantum_ns k =
    let x = k.tasks t in
    let count = nano2count quantum_ns % 2 ^ 32 in
    let quantum = if bad_quantum count then linux_tick else count in
    if round_robin
    then set_task t
        (record x { policy = pos 1; rr_quantum = quantum; rr_remaining = quantum; yield_time = 0 })
        k
    else set_task t (record x { policy = pos 0 }) k

rt_get_prio : ℕ → Kernel → ℤ
rt_get_prio t k = let x = k.tasks t in if not x.magic then einval else pos x.base_priority

rt_get_inher_prio : ℕ → Kernel → ℤ
rt_get_inher_prio t k = let x = k.tasks t in if not x.magic then einval else pos x.priority

rt_get_priorities : ℕ → Kernel → ℤ × Option (ℕ × ℕ)
rt_get_priorities t k =
    let x = k.tasks t in
    if not x.magic then (einval, none) else (pos 0, some (x.priority, x.base_priority))

-- the first of the ready tasks, or Linux
abbrev first_ready : Kernel → Option ℕ
first_ready k = elim k.ready [ [] ↦ none | t ∷ ts ↦ some t ]

same_task : Option ℕ → Option ℕ → Bool
same_task none none = true
same_task none (some t) = false
same_task (some t) none = false
same_task (some t) (some u) = t == u

-- The loop of rt_change_prio from the task `to` on. The flag is `schedmap`: another task is the first of
-- the ready ones. Each round gives a task a higher priority, so one round more than there are tasks
-- is enough.
change_prio_loop : ℕ → ℕ → ℕ → Kernel → Bool × Kernel
change_prio_loop zero to priority k = (false, k)
change_prio_loop (suc fuel) to priority k =
    let x = k.tasks to in
    let k' : Kernel = set_task to (record x { priority = priority }) k in
    let placed = reposition to k' in
    let q = queue_at x.blocked_on k' in
    let q' = insert_after_equals (priority_of k') to (unlink to q) in
    let moved = set_queue_at x.blocked_on q' k' in
    let l = if is_first to q then k' else moved in
    elim (is_ready x.state) [
      | true ↦ (not (same_task (first_ready k') (first_ready placed)), placed)
      | false ↦ elim (waits_for_owner x.blocked_on x.state k) [
        | false ↦ (false, k')
        | true ↦ elim (is_first to q || is_first to q') [
          | false ↦ (false, moved)
          | true ↦ elim (next_owner x.blocked_on l) [
            | ends ↦ (false, l)
            | stray ↦ (false, record l { astray = true })
            | goes_on u ↦ elim (ltb priority (priority_of l u)) [
              | true ↦ change_prio_loop fuel u priority l
              | false ↦ (false, l)
            ]
          ]
        ]
      ]
    ]

-- The value is the old base priority. The priority that a task has inherited stays, if it is higher.
rt_change_prio : ℕ → (Kernel → Kernel) → ℕ → ℤ → Kernel → ℤ × Kernel
rt_change_prio ntasks rt_schedule t (negsuc n) k = (einval, k)
rt_change_prio ntasks rt_schedule t (pos p) k =
    let x = k.tasks t in
    let priority =
      if not x.is_hard && ltb p base_soft_priority then p + base_soft_priority else p in
    let k₁ : Kernel = set_task t (record x { base_priority = priority }) k in
    let r = change_prio_loop (ntasks + 1) t priority k₁ in
    let k₂ =
      if x.base_priority == x.priority || ltb priority x.priority
      then (if r.0 then rt_schedule r.1 else r.1)
      else k₁ in
    if not x.magic then (einval, k) else (pos x.base_priority, k₂)
