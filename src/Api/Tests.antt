-- ===== src/Api/Tests.antt =====
-- Suspensions at concrete inputs (src/sched/api.c).
use rtai.Base.{ℕ, ◌*◌, ◌≡◌, refl, [], ◌∷◌, true, arith}
use rtai.Base.Int.{pos}
use rtai.Kernel.{Kernel, nobody}
use rtai.Sched.{resume_time_of}
use rtai.Sched.Order.{Sorted}
use rtai.Api.Period.{rt_set_resume_time, etime}
use rtai.Api.Period.Late.{Overtakes, rt_set_resume_time-unsorted}
use rtai.Kernel.Samples.{ready_task, ready_state, a_sem, a_kernel}

-- rt_schedule() comes back at once, and the clock shows the time of the kernel.
abbrev at_once : Kernel → Kernel
at_once k = k

abbrev clock : Kernel → ℕ
clock k = k.time_h

-- Of every task two suspensions are pending.
abbrev twice_suspended : Kernel
twice_suspended =
    a_kernel (λ t. record (ready_task (t * 10)) { suspdepth = pos 2 })
      (λ s. a_sem (pos 0) (pos 0) nobody []) (1 ∷ 2 ∷ [])

-- Tasks 2 and 3 wait for the times 20 and 30.
abbrev two_wait : Kernel
two_wait =
    record (a_kernel
      (λ t. record (ready_task 5) {
        state = record ready_state { delayed = true };
        resume_time = t * 10;
      })
      (λ s. a_sem (pos 0) (pos 0) nobody []) []) { timed = 2 ∷ 3 ∷ [] }

two_wait-Overtakes : Overtakes 3 2 15 [] two_wait
two_wait-Overtakes = record {
  valid = refl;
  delayed = refl;
  list = refl;
  others = refl;
  sorted = omega arith;
  earlier = omega arith;
}

rt_set_resume_time-unsorted_example :
    let r = rt_set_resume_time 3 15 two_wait in
    (r.0 ≡ etime) × (resume_time_of r.1 3 ≡ 15) × (¬ Sorted (resume_time_of r.1) r.1.timed)
rt_set_resume_time-unsorted_example =
    rt_set_resume_time-unsorted 3 2 15 [] two_wait two_wait-Overtakes
