-- ===== src/Msg/State.antt =====
-- src/ipc/msg/msg.c: what the message services share. A task waits in the msg_queue of the task to
-- which it sends, or in its ret_queue while it waits for the result of a remote procedure call.
pub mod Handover
pub mod NotSent
use rtai.Base.{ℕ, ◌==◌, ltb, Bool, true, false, ◌&&◌, if◌then◌else◌, Option, none, some}
use rtai.Base.Int.{ℤ}
use rtai.Kernel.{
  TaskState, is_ready, Blocked, null, rtp, sem_queue, msg_queue_of, ret_queue_of, mailbox, itself,
  Task, Kernel, set_task, unlink,
}
use rtai.Sched.{priority_of, insert_after_equals, enq_ready_task, rem_timed_task}
use rtai.Prio.{queue_at, set_queue_at, set_task_prio_from_resq}
use rtai.Sem.{rte_timout, rte_unblkd, rte_objrem}

-- What the services return as an RT_TASK pointer: NULL, a task, or one of the RTE_ values.
pub data TaskPtr : Type 0 where
  null_task : TaskPtr
  task_at : ℕ → TaskPtr
  code : ℤ → TaskPtr

-- a pointer that is this task
abbrev pub is_task : ℕ → Option ℕ → Bool
is_task t none = false
is_task t (some u) = u == t

-- enqueue_blocked(task, queue, 0)
pub enqueue_on : Blocked → ℕ → Kernel → Kernel
enqueue_on at t k =
    let l : Kernel = set_task t (record (k.tasks t) { blocked_on = at }) k in
    set_queue_at at (insert_after_equals (priority_of l) t (queue_at at l)) l

-- dequeue_blocked(task), from the queue in which the task waits
pub dequeue_from : ℕ → Kernel → Kernel
dequeue_from t k =
    let at = (k.tasks t).blocked_on in
    let l = set_queue_at at (unlink t (queue_at at k)) k in
    set_task t (record (l.tasks t) { prio_passed_to = none; blocked_on = null }) l

-- `task->state != RT_SCHED_READY && (task->state &= ~bits) == RT_SCHED_READY`: the task is ready again,
-- and is entered in the ready list.
pub make_ready : (TaskState → TaskState) → ℕ → Kernel → Bool × Kernel
make_ready clear t k =
    let x = k.tasks t in
    let state = clear x.state in
    let l : Kernel = set_task t (record x { state = state }) k in
    if is_ready x.state
    then (false, k)
    else if is_ready state
    then (true, enq_ready_task t l)
    else (false, l)

-- `(task->state & RT_SCHED_RECEIVE) && (!task->msg_queue.task || task->msg_queue.task == rt_current)`
pub receives_from : ℕ → ℕ → Kernel → Bool
receives_from t c k =
    let x = k.tasks t in x.state.receive && elim x.msg_task [ none ↦ true | some u ↦ u == c ]

abbrev pub clear_receive : TaskState → TaskState
clear_receive s = record s { receive = false; delayed = false }

-- The message is given to a task that waits for it.
pub hand_over : ℕ → ℕ → Kernel → Bool × Kernel
hand_over t msg k =
    let x : Task = record (k.tasks t) { msg = msg; msg_task = some k.current; ret_task = false } in
    make_ready clear_receive t (rem_timed_task t (set_task t x k))

-- What msg_not_sent makes of blocked_on; RTP_HIGERR is 11.
pub not_sent_code : Blocked → ℤ
not_sent_code null = rte_unblkd
not_sent_code (rtp e) = if ltb 11 e then rte_timout else rte_unblkd
not_sent_code (sem_queue s) = rte_timout
not_sent_code (msg_queue_of t) = rte_timout
not_sent_code (ret_queue_of t) = rte_timout
not_sent_code (mailbox m) = rte_timout
not_sent_code (itself t) = rte_timout

-- blocked_on == RTP_OBJREM, which is 4
pub is_objrem : Blocked → Bool
is_objrem null = false
is_objrem (rtp e) = e == 4
is_objrem (sem_queue s) = false
is_objrem (msg_queue_of t) = false
is_objrem (ret_queue_of t) = false
is_objrem (mailbox m) = false
is_objrem (itself t) = false

-- The macro msg_not_sent, for the task c that sends to the task t.
pub msg_not_sent : ℕ → ℕ → Kernel → TaskPtr × Kernel
msg_not_sent t c k =
    let retp = (k.tasks c).blocked_on in
    let given_up = dequeue_from c (set_task_prio_from_resq t k).1 in
    let removed : Kernel = set_task c (record (k.tasks c) { prio_passed_to = none }) k in
    let l = if is_objrem retp then removed else given_up in
    (
      code (if is_objrem retp then rte_objrem else not_sent_code retp),
      set_task c (record (l.tasks c) { msg_task = some c }) l,
    )

-- The end of a send: the receiver has set msg_queue.task to the sender itself, or the message has not
-- been sent.
pub send_done : ℕ → ℕ → Kernel → TaskPtr × Kernel
send_done t c k = if is_task c (k.tasks c).msg_task then (task_at t, k) else msg_not_sent t c k
