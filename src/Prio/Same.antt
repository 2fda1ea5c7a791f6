-- ===== src/Prio/Same.antt =====
-- When the recomputation of a priority changes nothing, and the queue of messages as a waiting list
-- (include/rtai_prinher.h).
use rtai.Base.{ℕ, ◌<◌, ltb, ◌==◌, true, false, ◌≡◌, refl, ap, ◌∙◌, List, ◌∷◌, if_true, arith}
use rtai.Kernel.{Kernel, msg_queue_of, set_task}
use rtai.Sched.{renq_ready_task}
use rtai.Sched.Quiet.{renq_ready_task-same}
use rtai.Prio.{
  queue_at, set_queue_at, inherited_priority, set_task_prio_from_msg_queue, set_task_prio_from_resq,
}

-- A task that has the priority of the first task in its msg_queue keeps it.
pub set_task_prio_from_resq-first :
    (t s : ℕ) (q : List ℕ) (k : Kernel)
    → (k.tasks t).owndres ≡ 0
    → (k.tasks t).msg_queue ≡ s ∷ q
    → (k.tasks s).priority < (k.tasks t).base_priority
    → (k.tasks t).priority ≡ (k.tasks s).priority
    → set_task_prio_from_resq t k ≡ (false, k)
unfolding set_task_prio_from_resq set_task_prio_from_msg_queue inherited_priority
set_task_prio_from_resq-first t s q k free queue higher same =
    let none : ((k.tasks t).owndres == 0) ≡ true = ground arith in
    let lower : ltb (k.tasks s).priority (k.tasks t).base_priority ≡ true = ground arith in
    rw (none, set_task_prio_from_resq)
      (ap (λ l. renq_ready_task t (inherited_priority k l (k.tasks t).base_priority) k) queue
        ∙ ap (λ p. renq_ready_task t p k) (if_true _ _ lower)
        ∙ renq_ready_task-same t _ k same)

pub queue_at-msg : (t : ℕ) (k : Kernel) → queue_at (msg_queue_of t) k ≡ (k.tasks t).msg_queue
unfolding queue_at
queue_at-msg t k = refl

pub set_queue_at-msg :
    (t : ℕ) (q : List ℕ) (k : Kernel)
    → set_queue_at (msg_queue_of t) q k ≡ set_task t (record (k.tasks t) { msg_queue = q }) k
unfolding set_queue_at
set_queue_at-msg t q k = refl
