-- ===== src/Sem/Wait/Tests.antt =====
-- rt_sem_wait at a concrete input (src/ipc/sem/sem.c).
use rtai.Base.{◌*◌, refl, [], ◌∷◌, arith}
use rtai.Base.Int.{pos}
use rtai.Kernel.{Kernel, set_task, null, nobody}
use rtai.Kernel.Samples.{ready_task, a_sem, a_kernel}
use rtai.Sem.Signal.Balance.{AllBalanced}
use rtai.Sem.Wait.{rt_sem_wait, wakeup_of}
use rtai.Sem.Wait.Balance.{rt_sem_wait-AllBalanced}

-- A semaphore that counts, with the count 0.
abbrev empty_sem : Kernel
empty_sem = a_kernel (λ t. ready_task (t * 10)) (λ s. a_sem (pos 0) (pos 0) nobody []) (1 ∷ 2 ∷ [])

-- Another task signals the semaphore 7 for task 1, which goes on.
abbrev handed_over : Kernel → Kernel
handed_over k = set_task 1 (record (k.tasks 1) { blocked_on = null }) k

rt_sem_wait-AllBalanced_example : AllBalanced (rt_sem_wait 3 handed_over 7 empty_sem).1
unfolding wakeup_of
rt_sem_wait-AllBalanced_example =
    rt_sem_wait-AllBalanced 3 handed_over 7 empty_sem (λ k b. b) (λ e. cc) (omega arith)
      (λ s. record { waiters = refl; capped = λ n. omega arith })
