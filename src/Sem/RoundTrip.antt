-- ===== src/Sem/RoundTrip.antt =====
-- A lock taken and given back leaves the kernel as it was (src/ipc/sem/sem.c).
use rtai.Base.{ℕ, ◌≡◌, refl, some}
use rtai.Base.Int.{pos, ◌+ℤ◌}
use rtai.Kernel.{Kernel}
use rtai.Prio.RoundTrip.{AtRest}
use rtai.Sem.Signal.{rt_sem_signal}
use rtai.Sem.Wait.{rt_sem_wait}
use rtai.Sem.Wait.Uncontended.{
  Free, Nested, rt_sem_wait-Free, rt_sem_wait-Nested, signal-taken, signal-deeper,
}

module _ (ntasks : ℕ) (rt_schedule : Kernel → Kernel) (rt_task_delete : ℕ → Kernel → Kernel) where
  -- A task that takes a free resource and gives it back at once gets 1 and 0 for results, and leaves
  -- the whole kernel as it was, if no suspension of the task is pending and if its priority is the
  -- one to which it would go back without a resource.
  pub rt_sem_signal-rt_sem_wait :
      (s : ℕ) (k : Kernel)
      → Free s k
      → (k.tasks k.current).suspdepth ≡ pos 0
      → AtRest k.current k
      → let w = rt_sem_wait ntasks rt_schedule s k in
        (w.0 ≡ pos 1) × (rt_sem_signal rt_schedule rt_task_delete s w.1 ≡ some (pos 0, k))
  rt_sem_signal-rt_sem_wait s k h d p =
      rw (rt_sem_wait-Free ntasks rt_schedule s k h)
        (refl, signal-taken rt_schedule rt_task_delete s k h d p)

  -- A task that holds a resource which may be taken again gets the new depth of nesting when it
  -- waits for it once more, and a signal then leaves the whole kernel as it was before the wait.
  pub rt_sem_signal-rt_sem_wait-Nested :
      (s : ℕ) (k : Kernel)
      → Nested s k
      → let w = rt_sem_wait ntasks rt_schedule s k in
        (w.0 ≡ (k.sems s).type +ℤ pos 1)
        × (rt_sem_signal rt_schedule rt_task_delete s w.1 ≡ some (pos 0, k))
  rt_sem_signal-rt_sem_wait-Nested s k h =
      rw (rt_sem_wait-Nested ntasks rt_schedule s k h)
        (refl, signal-deeper rt_schedule rt_task_delete s k h)
