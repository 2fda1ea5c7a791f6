-- ===== src/Sem/Tests.antt =====
-- The semaphores at concrete inputs (src/ipc/sem/sem.c).
use rtai.Base.{Bool, ℕ, ◌*◌, ◌≡◌, refl, [], ◌∷◌, arith, none, some, true, if◌then◌else◌, ◌==◌}
use rtai.Base.Int.{pos, negsuc}
use rtai.Kernel.{Kernel, Task, sem_queue, nobody, task}
use rtai.Kernel.Samples.{ready_task, ready_state, a_sem, a_kernel}
use rtai.Prio.{inherited_priority}
use rtai.Sem.{rt_resem_suspdel}
use rtai.Sem.Signal.{rt_sem_signal, rt_sem_broadcast}
use rtai.Sem.Signal.Broadcast.{rt_sem_broadcast-AllBalanced}
use rtai.Sem.Signal.Balance.{AllBalanced, Returns, rt_sem_signal-AllBalanced}
use rtai.Sem.Signal.Uncontended.{rt_sem_signal-none}
use rtai.Sem.Wait.{rt_sem_wait}
use rtai.Sem.RoundTrip.{rt_sem_signal-rt_sem_wait}

-- The first ready task runs.
abbrev run_first : Kernel → Kernel
run_first k = record k { current = elim k.ready [ [] ↦ k.current | t ∷ ts ↦ t ] }

abbrev nothing_deleted : ℕ → Kernel → Kernel
nothing_deleted t k = k

abbrev waiting_task : Task
waiting_task = record (ready_task 20) {
  state = record ready_state { semaphore = true };
  blocked_on = sem_queue 7;
}

-- Task 2 waits for every semaphore, each of which counts.
abbrev one_waits : Kernel
one_waits =
    a_kernel (λ t. if t == 2 then waiting_task else ready_task (t * 10))
      (λ s. a_sem (pos 0) (negsuc 0) nobody (2 ∷ [])) (1 ∷ [])

rt_sem_signal-AllBalanced_example :
    Returns AllBalanced (rt_sem_signal run_first nothing_deleted 7 one_waits)
rt_sem_signal-AllBalanced_example =
    rt_sem_signal-AllBalanced run_first nothing_deleted (λ k b. b) 7 one_waits
      (λ s. record { waiters = refl; capped = λ n. omega arith }) (omega arith)

rt_sem_broadcast-AllBalanced_example :
    let r = rt_sem_broadcast run_first nothing_deleted 7 one_waits in
    (l : Kernel) × (woken : Bool) × (r ≡ (pos 0, if woken then run_first l else l))
    × ((l.sems 7).queue ≡ [])
    × ((l.sems 7).count ≡ pos 0)
    × AllBalanced r.1
rt_sem_broadcast-AllBalanced_example =
    rt_sem_broadcast-AllBalanced run_first nothing_deleted 7 one_waits (λ k b. b) refl
      (λ s. record { waiters = refl; capped = λ n. omega arith })

-- Every semaphore is a mutex that is free.
abbrev mutexes : Kernel
mutexes = a_kernel (λ t. ready_task (t * 10)) (λ s. a_sem (pos 1) (pos 1) nobody []) (1 ∷ 2 ∷ [])

rt_sem_signal-rt_sem_wait_example :
    let w = rt_sem_wait 3 run_first 7 mutexes in
    (w.0 ≡ pos 1) × (rt_sem_signal run_first nothing_deleted 7 w.1 ≡ some (pos 0, mutexes))
unfolding inherited_priority
rt_sem_signal-rt_sem_wait_example =
    rt_sem_signal-rt_sem_wait 3 run_first nothing_deleted 7 mutexes
      (record { valid = refl; level = refl; count = refl; owner = refl; alone = refl }) refl refl

-- Every semaphore is a mutex that task 1 has taken.
abbrev locked : Kernel
locked = a_kernel (λ t. ready_task (t * 10)) (λ s. a_sem (pos 1) (pos 0) (task 1) []) (1 ∷ 2 ∷ [])

-- The deletion of task 1 is pending until it gives the mutex back.
abbrev doomed : Kernel
doomed = record locked {
  tasks = λ t. record (ready_task (t * 10)) { suspdepth = rt_resem_suspdel };
}

rt_sem_signal-none_example : rt_sem_signal run_first nothing_deleted 7 doomed ≡ none
rt_sem_signal-none_example =
    rt_sem_signal-none run_first nothing_deleted 7 doomed
      (record { valid = refl; level = refl; owner = refl; alone = refl }) refl
