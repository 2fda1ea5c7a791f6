-- ===== src/Msg/Receive/Delivery.antt =====
-- From a sender to a task that waits for a message.
use rtai.Base.{ℕ, ◌≡◌, refl, true}
use rtai.Kernel.{Kernel}
use rtai.Sched.{priority_of}
use rtai.Sched.Order.{Sorted}
use rtai.Sched.Mail.{Mail}
use rtai.Msg.State.{hand_over, task_at}
use rtai.Msg.State.Handover.{hand_over-Mail, Receiving, Released, hand_over-Released}
use rtai.Msg.Receive.{received, ptr_of}

received-Mail : {t msg c : ℕ} (k : Kernel) → Mail t msg c k → (received t k).0 ≡ task_at c
unfolding received ptr_of
received-Mail k m = rw (m.no_error, m.sender) refl

-- The hard real time task t waits for a message, maybe with a time limit, and for nothing else, and the ready
-- list is sorted. Then the hand over of a message to t reports that t is to run; t is ready, in the ready list
-- behind every task of at least its priority and before the others, and no longer in the list
-- of timed tasks, which keeps the others; and the end of rt_receive in t gives the address of the task
-- that sent the message, no error code, and t's word is the message, whatever t waited for before.
pub received-hand_over :
    (t msg : ℕ) (k : Kernel)
    → Receiving t k
    → Sorted (priority_of k) k.ready
    → let l = (hand_over t msg k).1 in
      ((hand_over t msg k).0 ≡ true)
      × Released t k l
      × ((received t l).0 ≡ task_at k.current)
      × ((l.tasks t).msg ≡ msg)
received-hand_over t msg k h sorted =
    let m = hand_over-Mail t msg k in
    let r = hand_over-Released t msg k h sorted in (r.0, r.1, received-Mail _ m, m.word)
