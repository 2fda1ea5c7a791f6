-- ===== src/Msg/Receive.antt =====
-- src/ipc/msg/msg.c: rt_evdrp, rt_receive, rt_receive_if, rt_receive_until and rt_receive_timed. The
-- message comes back with the pointer, where it is stored. The argument `task` is NULL or a task.
-- `proxy_receiver` is the receiver of a task that is a proxy, and nothing for the others.
pub mod Delivery
use rtai.Base.{
  ℕ, ◌+◌, ◌==◌, ltb, [], ◌∷◌, Bool, true, false, not, ◌&&◌, ◌||◌, if◌then◌else◌, Option, none, some,
}
use rtai.Base.Int.{ℤ}
use rtai.Kernel.{
  TaskState, Blocked, null, rtp, sem_queue, msg_queue_of, ret_queue_of, mailbox, itself, Task,
  Kernel, set_task,
}
use rtai.Sched.{rem_ready_current, rem_timed_task, enq_timed_task}
use rtai.Prio.{set_task_prio_from_resq}
use rtai.Sem.{rte_objinv, rte_timout, rte_unblkd}
use rtai.Msg.State.{
  TaskPtr, null_task, task_at, code, is_task, enqueue_on, dequeue_from, make_ready,
}
use rtai.Msg.Rpc.{rt_return}

abbrev clear_send : TaskState → TaskState
clear_send s = record s { send = false; delayed = false }

abbrev rpc_to_return : TaskState → TaskState
rpc_to_return s = record s { rpc = false; delayed = false; returning = true }

abbrev mark_receive : Bool → TaskState → TaskState
mark_receive timed s = record s { receive = true; delayed = if timed then true else s.delayed }

-- `if (!task) task = (rt_current->msg_queue.next)->task;` An empty queue leads to its head, whose `task`
-- is msg_queue.task.
pub sender_of : Option ℕ → ℕ → Kernel → Option ℕ
sender_of (some t) c k = some t
sender_of none c k = elim (k.tasks c).msg_queue [ [] ↦ (k.tasks c).msg_task | t ∷ q ↦ some t ]

-- `(task->state & (RT_SCHED_SEND | RT_SCHED_RPC)) && task->msg_queue.task == rt_current`
sends_to : ℕ → ℕ → Kernel → Bool
sends_to t c k = let x = k.tasks t in (x.state.send || x.state.rpc) && is_task c x.msg_task

-- CHECK_RECEIVER_MAGIC
valid : Option ℕ → Kernel → Bool
valid none k = true
valid (some t) k = (k.tasks t).magic

pub rt_evdrp : Option ℕ → Kernel → TaskPtr × Option ℕ
rt_evdrp task k =
    let c = k.current in
    if not (valid task k) then (code rte_objinv, none) else elim (sender_of task c k) [
      | none ↦ (null_task, none)
      | some t ↦ if sends_to t c k then (task_at t, some (k.tasks t).msg) else (null_task, none)
    ]

-- What msg_not_received makes of blocked_on; RTP_UNBLKD is 2.
not_received_code : Blocked → ℤ
not_received_code null = rte_timout
not_received_code (rtp e) = if e == 2 then rte_unblkd else rte_timout
not_received_code (sem_queue s) = rte_timout
not_received_code (msg_queue_of t) = rte_timout
not_received_code (ret_queue_of t) = rte_timout
not_received_code (mailbox m) = rte_timout
not_received_code (itself t) = rte_timout

ptr_of : Option ℕ → TaskPtr
ptr_of none = null_task
ptr_of (some t) = task_at t

own_msg_task : ℕ → Kernel → Kernel
own_msg_task c k = set_task c (record (k.tasks c) { msg_task = some c }) k

-- The end of rt_receive and rt_receive_until, proxies aside.
pub received : ℕ → Kernel → TaskPtr × Kernel
received c k =
    let x = k.tasks c in
    if x.ret_task
    then (
      code (not_received_code x.blocked_on),
      own_msg_task c (set_task c (record x { ret_task = false }) k),
    )
    else (ptr_of x.msg_task, own_msg_task c k)

-- The end of rt_receive_if, which has no error codes.
received_if : ℕ → Kernel → TaskPtr × Kernel
received_if c k =
    let x = k.tasks c in
    if x.ret_task
    then (null_task, own_msg_task c (set_task c (record x { ret_task = false }) k))
    else (ptr_of x.msg_task, own_msg_task c k)

module _ (rt_schedule : Kernel → Kernel) (get_time : Kernel → ℕ)
    (proxy_receiver : ℕ → Option ℕ) where
  -- The message of the task t, which waits to send it to c.
  take_from : ℕ → ℕ → Kernel → Kernel
  take_from t c k =
      let l = rem_timed_task t (dequeue_from t k) in
      let l₁ : Kernel = set_task c (record (l.tasks c) { msg_task = some t }) l in
      let l₂ : Kernel = set_task t (record (l₁.tasks t) { msg_task = some t }) l₁ in
      let h = make_ready clear_send t (set_task_prio_from_resq c l₂).1 in
      let q = enqueue_on (ret_queue_of c) t l₁ in
      if (l₁.tasks t).state.send
      then (if h.0 then rt_schedule h.1 else h.1)
      else set_task t (record (q.tasks t) { state = rpc_to_return (q.tasks t).state }) q

  -- c waits for a message, up to the call of the scheduler.
  block_receive : Bool → Option ℕ → ℕ → Kernel → Kernel
  block_receive timed task c k =
      let x : Task = record (k.tasks c) {
        ret_task = true;
        state = mark_receive timed (k.tasks c).state;
      } in
      let l = rem_ready_current c (set_task c x k) in
      set_task c (record (l.tasks c) { msg_task = if is_task c task then none else task }) l

  -- A message from a proxy is answered at once.
  answer_proxy : ℕ → (TaskPtr × Option ℕ) × Kernel → (TaskPtr × Option ℕ) × Kernel
  answer_proxy c r = elim (r.0).0 [
    | null_task ↦ r
    | code e ↦ r
    | task_at t ↦
        if is_task c (proxy_receiver t) then (r.0, (rt_return rt_schedule t 0 r.1).1) else r
  ]

  -- `done` is the end of the service.
  finish_receive :
      (ℕ → Kernel → TaskPtr × Kernel) → ℕ → Option ℕ → Kernel → (TaskPtr × Option ℕ) × Kernel
  finish_receive done c msg k = let r = done c k in answer_proxy c ((r.0, msg), r.1)

  -- what is done about a sender, if there is one, and else
  receive_or :
      (ℕ → Kernel → TaskPtr × Kernel)
      → (Option ℕ → ℕ → Kernel → (TaskPtr × Option ℕ) × Kernel)
      → Option ℕ
      → Kernel
      → (TaskPtr × Option ℕ) × Kernel
  receive_or done otherwise task k =
      let c = k.current in
      if not (valid task k) then ((code rte_objinv, none), k) else elim (sender_of task c k) [
        | none ↦ otherwise none c k
        | some t ↦
            if sends_to t c k
            then finish_receive done c (some (k.tasks t).msg) (take_from t c k)
            else otherwise (some t) c k
      ]

  wait_message : Option ℕ → ℕ → Kernel → (TaskPtr × Option ℕ) × Kernel
  wait_message task c k =
      let l = rt_schedule (block_receive false task c k) in
      finish_receive received c (some (l.tasks c).msg) l

  pub rt_receive : Option ℕ → Kernel → (TaskPtr × Option ℕ) × Kernel
  rt_receive task k = receive_or received wait_message task k

  pub rt_receive_if : Option ℕ → Kernel → (TaskPtr × Option ℕ) × Kernel
  rt_receive_if task k = receive_or received_if (λ from c l. ((null_task, none), l)) task k

  wait_message_until : ℕ → Option ℕ → ℕ → Kernel → (TaskPtr × Option ℕ) × Kernel
  wait_message_until time task c k =
      let k₁ : Kernel = set_task c (record (k.tasks c) { ret_task = true; resume_time = time }) k in
      let l = rt_schedule (enq_timed_task c (block_receive true task c k₁)) in
      if ltb k.time_h time
      then finish_receive received c (some (l.tasks c).msg) l
      else finish_receive received c none k₁

  pub rt_receive_until : Option ℕ → ℕ → Kernel → (TaskPtr × Option ℕ) × Kernel
  rt_receive_until task time k = receive_or received (wait_message_until time) task k

  pub rt_receive_timed : Option ℕ → ℕ → Kernel → (TaskPtr × Option ℕ) × Kernel
  rt_receive_timed task delay k = rt_receive_until task (get_time k + delay) k
