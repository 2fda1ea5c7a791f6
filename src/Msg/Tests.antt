-- ===== src/Msg/Tests.antt =====
-- Messages at concrete inputs (src/ipc/msg/msg.c).
use rtai.Base.{ℕ, ◌==◌, ◌<◌, ◌≡◌, refl, arith, [], ◌∷◌, true, if◌then◌else◌}
use rtai.Base.Int.{pos}
use rtai.Kernel.{Kernel, Task, nobody, msg_queue_of, is_ready, nothing_awaited}
use rtai.Kernel.Samples.{ready_task, ready_state, a_sem, a_kernel}
use rtai.Msg.State.{msg_not_sent, hand_over, task_at}
use rtai.Msg.State.Handover.{Receiving, Released}
use rtai.Msg.State.NotSent.{Waits, msg_not_sent-keeps_priority}
use rtai.Msg.Receive.{received}
use rtai.Msg.Receive.Delivery.{received-hand_over}

-- Task 1, of priority 3, waits to send to task 2, whose base priority is 20; task 4 waits behind it.
abbrev sending : ℕ → Task
sending t =
    if t == 2
    then record (ready_task 20) { priority = 3; msg_queue = 1 ∷ 4 ∷ [] }
    else record (ready_task 3) {
      state = record ready_state { send = true };
      blocked_on = msg_queue_of 2;
    }

abbrev blocked_sender : Kernel
blocked_sender = a_kernel sending (λ s. a_sem (pos 1) (pos 0) nobody []) (2 ∷ [])

blocked_sender-Waits : Waits 2 1 (4 ∷ []) blocked_sender
blocked_sender-Waits = record {
  others = refl;
  waits_on = refl;
  queue = refl;
  no_resource = refl;
  raised = omega arith;
  inherited = refl;
}

msg_not_sent-keeps_priority_example :
    let x = (msg_not_sent 2 1 blocked_sender).1.tasks 2 in
    (x.msg_queue ≡ 4 ∷ []) × (x.priority ≡ 3) × (x.priority < x.base_priority)
msg_not_sent-keeps_priority_example =
    msg_not_sent-keeps_priority 2 1 (4 ∷ []) blocked_sender blocked_sender-Waits

-- Task 2 waits for a message with a time limit, and task 1 sends one.
abbrev receiving : Kernel
receiving =
    record (a_kernel
      (λ t. if t == 1 then ready_task 10 else record (ready_task 20) {
        state = record ready_state { receive = true; delayed = true };
        ret_task = true;
      })
      (λ s. a_sem (pos 1) (pos 0) nobody []) (1 ∷ [])) { timed = 2 ∷ 3 ∷ [] }

receiving-Receiving : Receiving 2 receiving
unfolding is_ready nothing_awaited
receiving-Receiving = record { receives = refl; nothing_else = refl; hard = refl; timed = refl }

received-hand_over_example :
    let l = (hand_over 2 77 receiving).1 in
    ((hand_over 2 77 receiving).0 ≡ true)
    × Released 2 receiving l
    × ((received 2 l).0 ≡ task_at 1)
    × ((l.tasks 2).msg ≡ 77)
received-hand_over_example = received-hand_over 2 77 receiving receiving-Receiving (omega arith)
