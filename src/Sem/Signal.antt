-- ===== src/Sem/Signal.antt =====
-- src/ipc/sem/sem.c: rt_sem_signal, rt_sem_broadcast, rt_sem_delete, rt_sem_count, rt_cond_signal.
pub mod Balance
pub mod Uncontended
pub mod Broadcast
pub mod Elsewhere
pub mod Wakes
use rtai.Base.{
  ℕ, List, [], ◌∷◌, Bool, true, false, not, ◌&&◌, ◌||◌, if◌then◌else◌, Option, none, some,
}
use rtai.Base.Int.{ℤ, pos, ◌-ℤ◌, ltb_ℤ, leb_ℤ, eq_ℤ}
use rtai.Kernel.{nobody, task, number, Sem, Kernel, set_task, set_sem}
use rtai.Sched.{enq_ready_task, rem_ready_task, rem_ready_current, rem_timed_task}
use rtai.Prio.{dequeue_resqel_reset_task_priority}
use rtai.Sem.{
  rte_objinv, rte_perm, rtp_objrem, rt_resem_suspdel, clear_if_waiting, release, count_up, owned_by,
  owner_of, head?, minus_delayed,
}

rt_sem_count : ℕ → Kernel → ℤ
rt_sem_count s k = (k.sems s).count

-- the first part of a signal: the count, or one level less of a nested lock
unfoldable pub counted : ℕ → Kernel → Kernel
counted s k = set_sem s (count_up (k.sems s)) k

-- `rt_current->state |= RT_SCHED_SUSPENDED; rem_ready_current(rt_current);`
pub suspend_current : ℕ → Kernel → Kernel
suspend_current c k =
    let x = k.tasks c in
    rem_ready_current c (set_task c (record x { state = record x.state { suspended = true } }) k)

module _ (rt_schedule : Kernel → Kernel) (rt_task_delete : ℕ → Kernel → Kernel) where
  -- A pending suspension or deletion of the task that gives a resource back. `none` is the read
  -- through `task`, which is NULL if no task was waiting.
  pub suspend_or_delete : Option ℕ → Bool → ℕ → Kernel → Option (Bool × Kernel)
  suspend_or_delete waiter sched c k =
      let depth = (k.tasks c).suspdepth in
      if eq_ℤ depth (pos 0)
      then some (sched, k)
      else if ltb_ℤ (pos 0) depth
      then some (true, suspend_current c k)
      else elim waiter [
        | none ↦ none
        | some t ↦ some (
            if eq_ℤ (k.tasks t).suspdepth rt_resem_suspdel
            then (sched, rt_task_delete c k)
            else (sched, k))
      ]

  -- from the label `res` on
  pub give_back : ℕ → Option ℕ → Bool → Kernel → Option (ℤ × Kernel)
  give_back s waiter tosched k =
      let c = k.current in
      let k₁ : Kernel = set_sem s (record (k.sems s) { owndby = owner_of waiter }) k in
      let (sched, k₂) = dequeue_resqel_reset_task_priority c k₁ in
      if ltb_ℤ (pos 0) (k.sems s).type
      then elim (suspend_or_delete waiter sched c k₂) [
        | none ↦ none
        | some (sched', k₃) ↦ some (pos 0, if sched' || tosched then rt_schedule k₃ else k₃)
      ]
      else some (pos 0, k)

  -- the part from the look at the queue on
  pub signal_waiter : ℕ → Kernel → Option (ℤ × Kernel)
  signal_waiter s k = elim (head? (k.sems s).queue) [
    | none ↦ give_back s none false k
    | some t ↦
        let (woken, k') = release t s k in
        let x = k'.tasks t in
        if woken
        then (if leb_ℤ (k'.sems s).type (pos 0)
            then some (pos 0, rt_schedule k')
            else give_back s (some t) true
                (set_task t (record x { running = minus_delayed x.state }) k'))
        else give_back s (some t) false k'
  ]

  pub rt_sem_signal : ℕ → Kernel → Option (ℤ × Kernel)
  unfolding owned_by
  rt_sem_signal s k =
      let m = k.sems s in
      if not m.magic
      then some (rte_objinv, k)
      else if not (eq_ℤ m.type (pos 0))
          && not (eq_ℤ m.restype (pos 0))
          && not (owned_by m k.current)
      then some (rte_perm, k)
      else if ltb_ℤ (pos 1) m.type
      then some (pos 0, set_sem s (record m { type = m.type -ℤ pos 1 }) k)
      else signal_waiter s (counted s k)

  -- The loop of rt_sem_broadcast, which takes the tasks off the queue one by one; the flag is that
  -- some task was made ready. Interrupts are let in between two rounds; none is taken here.
  broadcast_loop : List ℕ → ℕ → Bool → Kernel → Bool × Kernel
  broadcast_loop [] s sched k = (sched, k)
  broadcast_loop (t ∷ ts) s sched k =
      let (woken, k') = release t s k in broadcast_loop ts s (sched || woken) k'

  pub rt_sem_broadcast : ℕ → Kernel → ℤ × Kernel
  rt_sem_broadcast s k =
      let (sched, k₁) = broadcast_loop (k.sems s).queue s false k in
      let k₂ : Kernel = set_sem s (record (k₁.sems s) { count = pos 0 }) k₁ in
      if not (k.sems s).magic
      then (rte_objinv, k)
      else (pos 0, if sched then rt_schedule k₂ else k₂)

  -- One task of the loop of rt_sem_delete: it stays linked in the queue.
  remove_waiter : ℕ → Kernel → Bool × Kernel
  remove_waiter t k =
      let (woken, k') = clear_if_waiting t (rem_timed_task t k) in
      if woken
      then (
        true,
        enq_ready_task t (set_task t (record (k'.tasks t) { blocked_on = rtp_objrem }) k'),
      )
      else (false, k')

  delete_loop : List ℕ → Bool → Kernel → Bool × Kernel
  delete_loop [] sched k = (sched, k)
  delete_loop (t ∷ ts) sched k =
      let (woken, k') = remove_waiter t k in delete_loop ts (sched || woken) k'

  -- A pending suspension or deletion of the owner of a deleted resource.
  release_owner : ℕ → Bool → Kernel → Bool × Kernel
  release_owner t sched k =
      let (changed, k₁) = dequeue_resqel_reset_task_priority t k in
      let x = k₁.tasks t in
      let k₂ : Kernel = set_task t (record x { state = record x.state { suspended = true } }) k₁ in
      if eq_ℤ x.suspdepth (pos 0)
      then (sched || changed, k₁)
      else if ltb_ℤ (pos 0) x.suspdepth
      then (true, rem_ready_task t k₂)
      else if eq_ℤ x.suspdepth rt_resem_suspdel
      then (sched || changed, rt_task_delete t k₁)
      else (sched || changed, k₁)

  delete_owner : Sem → Bool → Kernel → Bool × Kernel
  delete_owner m sched k = elim m.owndby [
    | nobody ↦ (sched, k)
    | number n ↦ (sched, k)
    | task t ↦ if ltb_ℤ (pos 0) m.type then release_owner t sched k else (sched, k)
  ]

  pub rt_sem_delete : ℕ → Kernel → ℤ × Kernel
  rt_sem_delete s k =
      let m = k.sems s in
      let (woken, k₁) = delete_loop m.queue false (set_sem s (record m { magic = false }) k) in
      let (sched, k₂) = delete_owner m woken k₁ in
      if not m.magic then (rte_objinv, k) else (pos 0, if sched then rt_schedule k₂ else k₂)

  -- A condition variable keeps no count: a signal with no task waiting is lost.
  rt_cond_signal : ℕ → Kernel → ℤ × Kernel
  rt_cond_signal s k =
      if not (k.sems s).magic then (rte_objinv, k) else elim (head? (k.sems s).queue) [
        | none ↦ (pos 0, k)
        | some t ↦ let (woken, k') = release t s k in (pos 0, if woken then rt_schedule k' else k')
      ]
