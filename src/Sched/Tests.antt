-- ===== src/Sched/Tests.antt =====
-- The task lists at concrete inputs.
use rtai.Base.{ℕ, ◌≡◌, refl, [], ◌∷◌, arith, ◌*◌}
use rtai.Base.Int.{pos}
use rtai.Kernel.{Kernel, Task, nobody}
use rtai.Kernel.Samples.{ready_task, a_kernel, a_sem}
use rtai.Sched.{enq_ready_task, wake_up_timed_tasks, priority_of, insert_after_equals}
use rtai.Sched.Order.{Sorted, Placed, enq_ready_task-Placed}
use rtai.Sched.Wake.{Waking, wake_up_timed_tasks-Waking}

-- Task t has the priority 10 t and is to resume at t.
abbrev pairs : ℕ → Task
pairs t = record (ready_task (t * 10)) { resume_time = t }

abbrev three_ready : Kernel
three_ready = a_kernel pairs (λ s. a_sem (pos 0) (pos 0) nobody []) (1 ∷ 2 ∷ 4 ∷ [])

abbrev three_timed : Kernel
three_timed = record three_ready { timed = 3 ∷ 4 ∷ 8 ∷ [] }

enqueued : (enq_ready_task 3 three_ready).ready ≡ 1 ∷ 2 ∷ 3 ∷ 4 ∷ []
unfolding enq_ready_task insert_after_equals
enqueued = refl

enq_ready_task-Placed_example :
    Placed (priority_of three_ready) 3 three_ready.ready (enq_ready_task 3 three_ready).ready
    × Sorted (priority_of (enq_ready_task 3 three_ready)) (enq_ready_task 3 three_ready).ready
enq_ready_task-Placed_example = enq_ready_task-Placed 3 three_ready refl (omega arith)

wake_up_timed_tasks-Waking_example :
    Waking three_timed 3 (4 ∷ 8 ∷ []) (wake_up_timed_tasks three_timed)
wake_up_timed_tasks-Waking_example =
    wake_up_timed_tasks-Waking three_timed 3 (4 ∷ 8 ∷ []) refl (omega arith)
