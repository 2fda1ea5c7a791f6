-- ===== src/Msg/Rpc.antt =====
-- src/ipc/msg/msg.c: rt_rpc, rt_rpc_if, rt_rpc_until, rt_rpc_timed, rt_isrpc and rt_return. The result
-- comes back with the pointer, where it is stored. CHECK_SENDER_MAGIC is the test of `magic`.
use rtai.Base.{ℕ, ◌+◌, leb, Bool, true, false, not, ◌&&◌, if◌then◌else◌, Option, none, some}
use rtai.Kernel.{TaskState, msg_queue_of, ret_queue_of, task, Kernel, set_task}
use rtai.Sched.{rem_ready_current, rem_timed_task, enq_timed_task}
use rtai.Prio.{pass_prio, set_task_prio_from_resq}
use rtai.Sem.{rte_objinv}
use rtai.Msg.State.{
  TaskPtr, null_task, task_at, code, is_task, enqueue_on, dequeue_from, make_ready, receives_from,
  hand_over, msg_not_sent,
}

abbrev clear_return : TaskState → TaskState
clear_return s = record s { returning = false; delayed = false }

-- the caller waits for the result, or for the receiver
abbrev mark_return : TaskState → TaskState
mark_return s = record s { returning = true }

abbrev mark_rpc : TaskState → TaskState
mark_rpc s = record s { rpc = true }

abbrev mark_delayed : TaskState → TaskState
mark_delayed s = record s { delayed = true }

abbrev set_state : ℕ → (TaskState → TaskState) → Kernel → Kernel
set_state t f k = set_task t (record (k.tasks t) { state = f (k.tasks t).state }) k

module _ (ntasks : ℕ) (rt_schedule : Kernel → Kernel) (get_time : Kernel → ℕ) where
  -- the caller's queue and state, by whether the receiver waits for it
  call : ℕ → ℕ → ℕ → Kernel → Kernel
  call t c to_do k =
      let l : Kernel = set_task c (record (k.tasks c) { msg = to_do }) k in
      if receives_from t c k
      then set_state c mark_return (enqueue_on (ret_queue_of t) c (hand_over t to_do l).1)
      else set_state c mark_rpc (enqueue_on (msg_queue_of t) c l)

  -- pass_prio, rem_ready_current and the task that is waited for
  wait_for_result : ℕ → ℕ → Kernel → Kernel
  wait_for_result t c k =
      let l = rem_ready_current c (pass_prio ntasks (task t) c k) in
      set_task c (record (l.tasks c) { msg_task = some t }) l

  rpc_done : ℕ → ℕ → Kernel → (TaskPtr × Option ℕ) × Kernel
  rpc_done t c k =
      let r = msg_not_sent t c k in
      if is_task c (k.tasks c).msg_task
      then ((task_at t, some (k.tasks c).msg), k)
      else ((r.0, none), r.1)

  pub rt_rpc : ℕ → ℕ → Kernel → (TaskPtr × Option ℕ) × Kernel
  rt_rpc t to_do k =
      let c = k.current in
      if not (k.tasks t).magic
      then ((code rte_objinv, none), k)
      else rpc_done t c (rt_schedule (wait_for_result t c (call t c to_do k)))

  pub rt_rpc_if : ℕ → ℕ → Kernel → (TaskPtr × Option ℕ) × Kernel
  rt_rpc_if t to_do k =
      let c = k.current in
      if not (k.tasks t).magic
      then ((code rte_objinv, none), k)
      else if not (receives_from t c k)
      then ((null_task, none), k)
      else rpc_done t c (rt_schedule (wait_for_result t c (call t c to_do k)))

  pub rt_rpc_until : ℕ → ℕ → ℕ → Kernel → (TaskPtr × Option ℕ) × Kernel
  rt_rpc_until t to_do time k =
      let c = k.current in
      let l : Kernel = set_task c (record (k.tasks c) { resume_time = time }) k in
      let waits = wait_for_result t c (set_state c mark_delayed (call t c to_do l)) in
      if not (k.tasks t).magic
      then ((code rte_objinv, none), k)
      else if leb time k.time_h
      then ((null_task, none), l)
      else rpc_done t c (rt_schedule (enq_timed_task c waits))

  pub rt_rpc_timed : ℕ → ℕ → ℕ → Kernel → (TaskPtr × Option ℕ) × Kernel
  rt_rpc_timed t to_do delay k = rt_rpc_until t to_do (get_time k + delay) k

module _ (rt_schedule : Kernel → Kernel) where
  -- the macro _rt_return, for the task c that returns
  return_to : ℕ → ℕ → ℕ → Kernel → Kernel
  return_to t c result k =
      let (sched, l) = set_task_prio_from_resq c (dequeue_from t k) in
      let h = make_ready clear_return t (
        rem_timed_task t (set_task t (record (l.tasks t) { msg = result; msg_task = some t }) l)) in
      if h.0 then rt_schedule h.1 else if sched then rt_schedule h.1 else h.1

  pub rt_return : ℕ → ℕ → Kernel → TaskPtr × Kernel
  rt_return t result k =
      let c = k.current in
      let x = k.tasks t in
      if not x.magic
      then (code rte_objinv, k)
      else if x.state.returning && is_task c x.msg_task
      then (task_at t, return_to t c result k)
      else (null_task, k)

pub rt_isrpc : ℕ → Kernel → Bool
rt_isrpc t k = (k.tasks t).state.returning
