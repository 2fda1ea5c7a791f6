-- ===== src/Spl.antt =====
-- src/ipc/sem/sem.c: spin locks that their owner may take again (rt_spl_init, rt_spl_lock_if,
-- rt_spl_unlock). rt_spl_lock and rt_spl_lock_timed repeat the try of rt_spl_lock_if. `flags` holds the state of the interrupts and
-- decides nothing; it is left out. A cmpxchg is one step, so that a try to get the lock is atomic.
pub mod Owning
mod Tests
use rtai.Base.{
  ℕ, zero, suc, ◌+◌, ◌==◌, List, [], ◌∷◌, Bool, true, false, if◌then◌else◌, Option, none, some,
}
use rtai.Base.Int.{ℤ, pos, negsuc}

-- SPL (include/rtai_spl.h)
pub record Spl : Type 0 where
  pub owndby : Option ℕ
  pub count : ℕ

pub rt_spl_init : Spl
rt_spl_init = record { owndby = none; count = 0 }

-- `spl->owndby == rt_current`
pub owns : Spl → ℕ → Bool
owns s t = elim s.owndby [ none ↦ false | some u ↦ u == t ]

-- One try of the task t: rt_spl_lock_if. 0 is success and -1 that another task has the lock.
pub rt_spl_lock_if : ℕ → Spl → ℤ × Spl
rt_spl_lock_if t s =
    if owns s t
    then (pos 0, record s { count = s.count + 1 })
    else elim s.owndby [ none ↦ (pos 0, record s { owndby = some t }) | some u ↦ (negsuc 0, s) ]

pub rt_spl_unlock : ℕ → Spl → ℤ × Spl
rt_spl_unlock t s =
    if owns s t
    then elim s.count [
      | zero ↦ (pos 0, record { owndby = none; count = 0 })
      | suc n ↦ (pos 0, record s { count = n })
    ]
    else (negsuc 0, s)
