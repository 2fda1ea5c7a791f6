-- ===== src/Prio/RoundTrip.antt =====
-- Taking a resource and giving it back leaves the priority and the count of resources as they were
-- (include/rtai_prinher.h).
use mathlib.Core.Path.{fun_ext}
use rtai.Base.{ℕ, ◌-◌, ◌≡◌, refl, ap, ◌∙◌, arith, false, Bool-cases, inl, inr, if◌then◌else◌, ◌==◌}
use rtai.Kernel.{Kernel, set_task}
use rtai.Sched.Quiet.{renq_ready_task-same}
use rtai.Prio.{
  enqueue_resqel, dequeue_resqel_reset_task_priority, set_task_prio_from_msg_queue,
  inherited_priority,
}

-- The task has the priority that it would go back to.
abbrev pub AtRest : ℕ → Kernel → Type 0
AtRest t k =
    (k.tasks t).priority ≡ inherited_priority k (k.tasks t).msg_queue (k.tasks t).base_priority

set_task_prio-AtRest :
    (t : ℕ) (k : Kernel) → AtRest t k → set_task_prio_from_msg_queue t k ≡ (false, k)
unfolding set_task_prio_from_msg_queue
set_task_prio-AtRest t k h = renq_ready_task-same t _ k h

owndres-back :
    (t : ℕ) (k : Kernel)
    → let k₁ = enqueue_resqel t k in
      let x = k₁.tasks t in set_task t (record x { owndres = x.owndres - 1 }) k₁ ≡ k
unfolding enqueue_resqel
owndres-back t k =
    ap (λ f. record k { tasks = f })
      (fun_ext (λ j. elim (Bool-cases (t == j)) [ inl e ↦ ground (arith, e) | inr e ↦ rw e refl ]))

pub dequeue_resqel-enqueue_resqel :
    (t : ℕ) (k : Kernel)
    → AtRest t k
    → dequeue_resqel_reset_task_priority t (enqueue_resqel t k) ≡ (false, k)
unfolding dequeue_resqel_reset_task_priority
dequeue_resqel-enqueue_resqel t k h =
    let left = ((enqueue_resqel t k).tasks t).owndres - 1 in
    ap (λ x. if left == 0 then set_task_prio_from_msg_queue t x else (false, x)) (owndres-back t k)
    ∙ elim (Bool-cases (left == 0)) [
      | inl e ↦ rw e (set_task_prio-AtRest t k h)
      | inr e ↦ rw e refl
    ]
