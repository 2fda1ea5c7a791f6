-- ===== src/Prio/Tests.antt =====
-- Priority inheritance at a concrete input (include/rtai_schedcore.h).
use rtai.Base.{ℕ, ◌*◌, refl, arith, [], ◌∷◌, true, if◌then◌else◌, ◌==◌}
use rtai.Base.Int.{pos}
use rtai.Kernel.{Kernel, Task, task, sem_queue, is_ready, nothing_awaited}
use rtai.Kernel.Samples.{ready_task, ready_state, a_sem, a_kernel}
use rtai.Prio.{pass_prio, is_first}
use rtai.Prio.Chain.{Chain, Inherited, pass_prio-Inherited}

-- Task 3 owns the mutexes, and waits for one that task 4 owns.
abbrev chain_task : ℕ → Task
chain_task t =
    if t == 3
    then record (ready_task 30) {
      state = record ready_state { semaphore = true };
      blocked_on = sem_queue 7;
    }
    else ready_task (t * 10)

abbrev chain : Kernel
chain = a_kernel chain_task (λ s. a_sem (pos 1) (pos 0) (task 4) (3 ∷ [])) (1 ∷ 2 ∷ 4 ∷ [])

chain-Chain : Chain 10 chain 3 (4 ∷ [])
unfolding is_ready nothing_awaited is_first
chain-Chain = (
  record {
    sem = 7;
    lower = refl;
    not_ready = refl;
    for_sem = refl;
    at = refl;
    mutex = refl;
    first = refl;
    owner = refl;
  },
  refl,
  refl,
  (refl, refl, refl),
)

pass_prio-Inherited_example : Inherited 10 (3 ∷ 4 ∷ []) chain (pass_prio 4 (task 3) 1 chain)
pass_prio-Inherited_example =
    pass_prio-Inherited 4 3 1 (4 ∷ []) chain (omega arith) chain-Chain (omega arith)
