-- ===== src/Rwl/Tests.antt =====
-- Locks of readers and writers at concrete inputs (src/ipc/sem/sem.c).
use rtai.Base.{ℕ, ◌*◌, ◌==◌, ◌≡◌, refl, arith, [], ◌∷◌, true, some, inl, if◌then◌else◌}
use rtai.Base.Int.{pos}
use rtai.Kernel.{Kernel, Task, Sem, nobody, number, sem_queue, is_ready, nothing_awaited}
use rtai.Kernel.Samples.{ready_task, ready_state, a_sem, a_kernel}
use rtai.Sem.{head?}
use rtai.Sem.Frames.{owned_by-nobody}
use rtai.Sem.Signal.Wakes.{MadeReady}
use rtai.Rwl.{Rwl, is_owned, rt_rwl_unlock}
use rtai.Rwl.Exclusive.{Apart, Exclusive, Gives}
use rtai.Rwl.Calls.{reads, writes, unlocks, run, run-Exclusive}
use rtai.Rwl.Wakes.{LastReader, rt_rwl_unlock-MadeReady}

abbrev a_lock : Rwl
a_lock = record { wrmtx = 0; wrsem = 1; rdsem = 2 }

a_lock-Apart : Apart a_lock
a_lock-Apart = record { mtx_wr = refl; mtx_rd = refl; wr_rd = refl }

-- Task 1 reads, and task 3 waits to write.
abbrev lock_sems : ℕ → Sem
lock_sems s =
    if s == 0
    then a_sem (pos 1) (pos 1) nobody []
    else if s == 1
    then a_sem (pos 0) (pos 0) nobody (3 ∷ [])
    else a_sem (pos 0) (pos 0) (number 1) []

abbrev lock_tasks : ℕ → Task
lock_tasks t =
    if t == 3
    then record (ready_task 30) {
      state = record ready_state { semaphore = true };
      blocked_on = sem_queue 1;
    }
    else ready_task (t * 10)

abbrev one_reads : Kernel
one_reads = a_kernel lock_tasks lock_sems (1 ∷ [])

one_reads-Exclusive : Exclusive a_lock one_reads
unfolding is_owned
one_reads-Exclusive = record { one_side = inl refl; not_deleted = omega arith }

run-Exclusive_example :
    Gives
      (Exclusive a_lock)
      (run a_lock 4 (λ k. k) (λ t k. k) (λ k. 0) (reads ∷ writes ∷ unlocks ∷ []) one_reads)
run-Exclusive_example =
    run-Exclusive a_lock 4 (λ k. k) (λ t k. k) (λ k. 0) a_lock-Apart (λ k e. e)
      (reads ∷ writes ∷ unlocks ∷ []) one_reads one_reads-Exclusive

one_reads-LastReader : LastReader a_lock 3 [] one_reads
unfolding is_owned head? is_ready nothing_awaited
one_reads-LastReader = record {
  not_mine = owned_by-nobody _ 1 refl;
  unwritten = refl;
  readers = refl;
  valid = refl;
  counting = refl;
  queue = refl;
  waits = record { waits = refl; no_more = refl; hard = refl };
  first = λ r e. cc;
}

rt_rwl_unlock-MadeReady_example :
    (k' : Kernel) × (rt_rwl_unlock (λ k. k) (λ t k. k) a_lock one_reads ≡ some (pos 0, k'))
    × MadeReady 3 1 [] one_reads k'
rt_rwl_unlock-MadeReady_example =
    rt_rwl_unlock-MadeReady (λ k. k) (λ t k. k) a_lock 3 [] one_reads a_lock-Apart
      one_reads-LastReader
