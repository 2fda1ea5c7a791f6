-- ===== src/Msg/Send.antt =====
-- src/ipc/msg/msg.c: rt_send, rt_send_if, rt_send_until and rt_send_timed.
-- CHECK_SENDER_MAGIC is the test of `magic`: no task has an address below RTE_HIGERR.
use rtai.Base.{ℕ, ◌+◌, ltb, Bool, true, false, not, if◌then◌else◌, some}
use rtai.Kernel.{TaskState, msg_queue_of, task, Kernel, set_task}
use rtai.Sched.{rem_ready_current, enq_timed_task}
use rtai.Prio.{pass_prio}
use rtai.Sem.{rte_objinv}
use rtai.Msg.State.{
  TaskPtr, null_task, task_at, code, is_task, enqueue_on, receives_from, hand_over, send_done,
}

abbrev mark_send : Bool → TaskState → TaskState
mark_send timed s = record s { send = true; delayed = if timed then true else s.delayed }

module _ (ntasks : ℕ) (rt_schedule : Kernel → Kernel) (get_time : Kernel → ℕ) where
  -- a message to a task that waits for it, and the task may run
  give : ℕ → ℕ → Kernel → Kernel
  give t msg k = let h = hand_over t msg k in if h.0 then rt_schedule h.1 else h.1

  -- The sender waits in the queue of the receiver, up to the call of the scheduler.
  pub block_send : Bool → ℕ → ℕ → ℕ → Kernel → Kernel
  block_send timed t c msg k =
      let l : Kernel =
        enqueue_on (msg_queue_of t) c
          (set_task c (record (k.tasks c) { msg = msg; msg_task = some t }) k) in
      let x = l.tasks c in
      rem_ready_current c
        (pass_prio ntasks (task t) c (set_task c (record x { state = mark_send timed x.state }) l))

  pub rt_send : ℕ → ℕ → Kernel → TaskPtr × Kernel
  rt_send t msg k =
      let c = k.current in
      if not (k.tasks t).magic
      then (code rte_objinv, k)
      else send_done t c
          (if receives_from t c k then give t msg k else rt_schedule (block_send false t c msg k))

  pub rt_send_if : ℕ → ℕ → Kernel → TaskPtr × Kernel
  rt_send_if t msg k =
      let c = k.current in
      let l = give t msg k in
      if not (k.tasks t).magic
      then (code rte_objinv, k)
      else if not (receives_from t c k)
      then (null_task, k)
      else if is_task c (l.tasks c).msg_task
      then (task_at t, l)
      else (null_task, set_task c (record (l.tasks c) { msg_task = some c }) l)

  -- A time that is not in the future lets the sender give up at once.
  pub rt_send_until : ℕ → ℕ → ℕ → Kernel → TaskPtr × Kernel
  rt_send_until t msg time k =
      let c = k.current in
      let l : Kernel =
        set_task c (record (k.tasks c) { msg_task = some t; resume_time = time }) k in
      let waited =
        if ltb k.time_h time
        then rt_schedule (enq_timed_task c (block_send true t c msg l))
        else l in
      if not (k.tasks t).magic
      then (code rte_objinv, k)
      else send_done t c (if receives_from t c k then give t msg k else waited)

  pub rt_send_timed : ℕ → ℕ → ℕ → Kernel → TaskPtr × Kernel
  rt_send_timed t msg delay k = rt_send_until t msg (get_time k + delay) k
