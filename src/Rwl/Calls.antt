-- ===== src/Rwl/Calls.antt =====
-- Any sequence of attempts and releases (src/ipc/sem/sem.c).
use rtai.Base.{ℕ, List, [], ◌∷◌, Option, none, some}
use rtai.Base.Int.{ℤ}
use rtai.Kernel.{Kernel}
use rtai.Sem.Signal.Balance.{Returns}
use rtai.Rwl.{Rwl, rt_rwl_rdlock_if, rt_rwl_wrlock_if, rt_rwl_unlock}
use rtai.Rwl.Exclusive.{
  Apart, Exclusive, Gives, rt_rwl_unlock-Exclusive, rt_rwl_rdlock_if-Exclusive,
  rt_rwl_wrlock_if-Exclusive,
}

-- What the running task asks of a lock.
pub data Call : Type 0 where
  reads : Call
  writes : Call
  unlocks : Call

module _ (l : Rwl) (ntasks : ℕ) (rt_schedule : Kernel → Kernel)
    (rt_task_delete : ℕ → Kernel → Kernel) (get_time : Kernel → ℕ) where
  abbrev state_of : Option (ℤ × Kernel) → Option Kernel
  state_of none = none
  state_of (some r) = some r.1

  pub serve : Call → Kernel → Option Kernel
  serve reads k = some (rt_rwl_rdlock_if ntasks rt_schedule get_time l k).1
  serve writes k = some (rt_rwl_wrlock_if ntasks rt_schedule get_time l k).1
  serve unlocks k = state_of (rt_rwl_unlock rt_schedule rt_task_delete l k)

  -- Calls of whatever tasks run, one after another.
  pub run : List Call → Kernel → Option Kernel
  run [] k = some k
  run (c ∷ cs) k = elim (serve c k) [ none ↦ none | some k' ↦ run cs k' ]

  state_of-Exclusive :
      (r : Option (ℤ × Kernel)) → Returns (Exclusive l) r → Gives (Exclusive l) (state_of r)
  state_of-Exclusive none e = e
  state_of-Exclusive (some r) e = e

  serve-Exclusive :
      Apart l
      → ((k : Kernel) → Exclusive l k → Exclusive l (rt_schedule k))
      → (c : Call) (k : Kernel) → Exclusive l k
      → Gives (Exclusive l) (serve c k)
  unfolding serve
  serve-Exclusive apart env reads k e =
      rt_rwl_rdlock_if-Exclusive l apart ntasks rt_schedule get_time k e
  serve-Exclusive apart env writes k e =
      rt_rwl_wrlock_if-Exclusive l apart ntasks rt_schedule get_time k e
  serve-Exclusive apart env unlocks k e =
      state_of-Exclusive _ (rt_rwl_unlock-Exclusive l apart rt_schedule rt_task_delete env k e)

  -- A lock with three different semaphores is in a state in which no writer has it, or no reader,
  -- and no deletion of the running task is pending, and rt_schedule() keeps that. Then every sequence
  -- of rt_rwl_rdlock_if, rt_rwl_wrlock_if and rt_rwl_unlock, by whatever tasks are running, comes to
  -- its end, and leaves the lock in such a state.
  pub run-Exclusive :
      Apart l
      → ((k : Kernel) → Exclusive l k → Exclusive l (rt_schedule k))
      → (cs : List Call) (k : Kernel) → Exclusive l k
      → Gives (Exclusive l) (run cs k)
  unfolding run
  run-Exclusive apart env [] k e = e
  run-Exclusive apart env (c ∷ cs) k e =
      go (serve c k) (serve-Exclusive apart env c k e) (run-Exclusive apart env cs)
    where
      go :
          (x : Option Kernel)
          → Gives (Exclusive l) x
          → ((k' : Kernel) → Exclusive l k' → Gives (Exclusive l) (run cs k'))
          → Gives (Exclusive l) (elim x [ none ↦ none | some k' ↦ run cs k' ])
      go none g rest = g
      go (some k') g rest = rest k' g
