-- ===== src/Schedule/Tests.antt =====
-- The choice of the next task at concrete inputs (src/sched/sched.c).
use rtai.Base.{◌<◌, ◌==◌, if◌then◌else◌, ◌≡◌, refl, arith, [], ◌∷◌, false}
use rtai.Base.Int.{pos}
use rtai.Kernel.{Kernel, Task, nobody, is_ready, nothing_awaited}
use rtai.Kernel.Samples.{ready_task, a_sem, a_kernel}
use rtai.Schedule.{Processor, new_task, rt_timer_handler}
use rtai.Schedule.Rms.{rt_spv_rms}
use rtai.Schedule.Rms.Order.{rt_spv_rms-monotonic}
use rtai.Schedule.RoundRobin.{Turns, Line, Ticks, rt_timer_handler-turn}

abbrev rr_task : Task
rr_task = record (ready_task 5) { policy = pos 1; rr_quantum = 10; rr_remaining = 10 }

-- Task 1 runs, and tasks 2 and 3 have the same priority.
abbrev three_ready : Processor
three_ready = record {
  kernel = a_kernel (λ t. rr_task) (λ s. a_sem (pos 1) (pos 0) nobody []) (1 ∷ 2 ∷ 3 ∷ []);
  tick_time = 0;
  locked = 0;
  rqsted = false;
}

rr_task-Turns : Turns 5 rr_task
unfolding is_ready nothing_awaited
rr_task-Turns = record { priority = refl; round_robin = refl; ready = refl; hard = refl }

three_ready-Line : Line 0 (1 ∷ []) 2 three_ready
unfolding new_task
three_ready-Line = record {
  priority = 5;
  behind = 3 ∷ [];
  ready = refl;
  first = refl;
  in_turn = (rr_task-Turns, (rr_task-Turns, tt));
  none_timed = refl;
  unlocked = refl;
}

rt_timer_handler-turn_example : (rt_timer_handler 0 1 20 three_ready).kernel.current ≡ 2
rt_timer_handler-turn_example =
    rt_timer_handler-turn 0 1 2 (1 ∷ []) three_ready (rt_timer_handler 0 1 20 three_ready)
      three_ready-Line (Ticks.fires 20 (omega arith) (Ticks.stop _))

-- Task 2 has the shorter period.
abbrev two_periods : Kernel
two_periods =
    a_kernel (λ t. record (ready_task 9) { period = if t == 2 then 10 else 30 })
      (λ s. a_sem (pos 1) (pos 0) nobody []) (1 ∷ 2 ∷ [])

rt_spv_rms-monotonic_example :
    ((rt_spv_rms (1 ∷ 2 ∷ []) two_periods).tasks 2).priority
    < ((rt_spv_rms (1 ∷ 2 ∷ []) two_periods).tasks 1).priority
rt_spv_rms-monotonic_example =
    rt_spv_rms-monotonic (1 ∷ 2 ∷ []) two_periods 2 1 refl refl refl refl (omega arith)
      (omega arith)
