-- ===== src/Signals.antt =====
-- src/sched/signal.c: signals, each served by a task of its own that runs while the task that gets
-- the signal is stopped. Where the source takes NULL for the running task, the model takes its number.
-- `rt_schedule` is the step from a call of rt_schedule() to its return.
pub mod Serving
pub mod Start
pub mod Calls
pub mod Trigger
mod Tests
use rtai.Base.{
  ℕ, zero, suc, ◌+◌, ◌-◌, ltb, ◌==◌, List, [], ◌∷◌, Bool, true, false, not, ◌&&◌, if◌then◌else◌,
  Option, none, some, get_elem?, set, replicate,
}
use rtai.Base.Int.{ℤ, pos, negsuc, ◌+ℤ◌, ◌-ℤ◌, ltb_ℤ, eq_ℤ}
use rtai.Kernel.{is_ready, Task, TaskState, Kernel, update, set_task}
use rtai.Sched.{enq_ready_task, rem_ready_task, rem_ready_current}
use rtai.Sem.{rte_base}
use rtai.Api.{einval, suspends_now, rt_task_resume, rt_task_suspend}
use rtai.Fifos.Service.{enomem}

abbrev max_signals : ℕ
max_signals = 16

-- struct rt_signal_t: the bits SIGNAL_ENBIT and SIGNAL_PNDBIT of its flags, and sigtask
pub record Signal : Type 0 where
  pub enabled : Bool
  pub pending : Bool
  pub sigtask : Option ℕ

-- RT_TASK.rt_signals: NULL, 1 in a task that serves a signal, or an array
pub data RtSignals : Type 0 where
  nothing : RtSignals
  serves : RtSignals
  array : List Signal → RtSignals

-- RT_TASK.retval: a number, or a task
pub data Retval : Type 0 where
  code : ℤ → Retval
  of_task : ℕ → Retval

-- The fields of RT_TASK that only this file uses.
pub record Fields : Type 0 where
  pub pstate : ℕ
  pub retval : Retval
  pub rt_signals : RtSignals
  pub runnable_on_cpus : ℕ

pub record State : Type 0 where
  pub kernel : Kernel
  pub fields : ℕ → Fields

-- What a service comes to: it reads or writes through NULL, through the address 1 or beyond an array,
-- it goes on for more rounds than it was given, or it returns.
pub data Outcome (A : Type 0) : Type 0 where
  faults : Outcome A
  runs_on : Outcome A
  returns : A → Outcome A

abbrev pub set_fields : ℕ → Fields → State → State
set_fields t f m = record m { fields = update m.fields t f }

abbrev pub with_kernel : Kernel → State → State
with_kernel k m = record m { kernel = k }

abbrev pub signals_of : RtSignals → List Signal
signals_of nothing = []
signals_of serves = []
signals_of (array gs) = gs

-- RT_SIGNALS[signal]
abbrev pub entry : ℕ → ℕ → State → Option Signal
entry i t m = get_elem? (signals_of (m.fields t).rt_signals) i

-- A write to RT_SIGNALS[signal] that stands in the array.
abbrev pub set_entry : ℕ → ℕ → Signal → State → State
set_entry i t g m =
    let f = m.fields t in
    set_fields t (record f { rt_signals = array (set (signals_of f.rt_signals) i g) }) m

-- memset(task->rt_signals, 0, ...)
abbrev new_array : List Signal
new_array = replicate max_signals (record { enabled = false; pending = false; sigtask = none })

-- The array of the task, a new one if it has none, and none if there is no memory for it.
pub get_array : Bool → ℕ → State → Option State
get_array memory t m =
    let f = m.fields t in
    elim f.rt_signals [
      | nothing ↦
          if memory
          then some (set_fields t (record f { rt_signals = array new_array; pstate = 0 }) m)
          else none
      | other ↦ some m
    ]

-- The entry of the signal, and the task that will serve it.
pub install : ℕ → ℕ → ℕ → State → Outcome State
install s t i m = elim (entry i t m) [
  | none ↦ faults
  | some g ↦
      let m₁ = set_entry i t (record g { enabled = true; pending = false }) m in
      let m₂ : State = set_fields s (record (m₁.fields s) { rt_signals = serves }) m₁ in
      elim (entry i t m₂) [
        | none ↦ faults
        | some h ↦ returns (set_entry i t (record h { sigtask = some s }) m₂)
      ]
]

-- sigtask->suspdepth has come to 0: the task that it serves is stopped, and it is made ready.
pub stop_served : ℕ → State → State
stop_served t m =
    let f = m.fields t in
    let m₁ : State = set_fields t (record f { pstate = f.pstate + 1 }) m in
    let k = rem_ready_task t m.kernel in
    let x = k.tasks t in
    if f.pstate == 0
    then with_kernel (set_task t (record x { state = record x.state { sigsusp = true } }) k) m₁
    else m₁

pub make_ready : ℕ → Retval → State → State
make_ready s r m =
    let x = m.kernel.tasks s in
    let k : Kernel =
      set_task s (record x { state = record x.state { sigsusp = false } }) m.kernel in
    set_fields s (record (m.fields s) { retval = r }) (with_kernel (enq_ready_task s k) m)

pub start : ℕ → Option ℕ → State → State
start s none m = make_ready s (code (pos 0)) m
start s (some t) m =
    let k = m.kernel in
    let x : Task = record (k.tasks s) { priority = (k.tasks t).priority } in
    make_ready s (of_task t) (stop_served t (with_kernel (set_task s x k) m))

-- The task that the signal stopped goes on when no other of its signals is being served.
pub let_go : ℕ → State → State
let_go t m =
    let f = m.fields t in
    let k = m.kernel in
    let x = k.tasks t in
    let state : TaskState = record x.state { sigsusp = false } in
    let m₁ : State = set_fields t (record f { pstate = f.pstate - 1 }) m in
    let k₁ : Kernel = set_task t (record x { state = state }) k in
    if f.pstate == 0
    then m
    else if f.pstate == 1
    then with_kernel (if is_ready state then enq_ready_task t k₁ else k₁) m₁
    else m₁

-- sigtask->suspdepth was 0.
pub stop_serving : ℕ → ℕ → State → State
stop_serving s t m =
    let k = m.kernel in
    let x = k.tasks s in
    let k₁ : Kernel = set_task s (record x { state = record x.state { sigsusp = true } }) k in
    let_go t (with_kernel (rem_ready_current s k₁) m)

abbrev pub set_depth : ℕ → ℤ → State → State
set_depth s d m = with_kernel (set_task s (record (m.kernel.tasks s) { suspdepth = d }) m.kernel) m

-- rt_signals is not NULL.
pub has_signals : ℕ → State → Bool
has_signals t m = elim (m.fields t).rt_signals [ nothing ↦ false | other ↦ true ]

-- A negative signal does nothing here, nor in rt_trigger_signal.
pub switch : Bool → ℤ → ℕ → State → Outcome State
switch b (negsuc j) t m = returns m
switch b (pos i) t m =
    if has_signals t m
    then elim (entry i t m) [
      | none ↦ faults
      | some g ↦ returns (set_entry i t (record g { enabled = b }) m)
    ]
    else returns m

pub rt_enable_signal : ℤ → ℕ → State → Outcome State
rt_enable_signal i t m = switch true i t m

pub rt_disable_signal : ℤ → ℕ → State → Outcome State
rt_disable_signal i t m = switch false i t m

module _ (rt_schedule : State → State) where
  pub rt_exec_signal : ℕ → Option ℕ → State → State
  rt_exec_signal s t m =
      let depth = (m.kernel.tasks s).suspdepth in
      let d = depth -ℤ pos 1 in
      if ltb_ℤ (pos 0) depth
      then if eq_ℤ d (pos 0) then rt_schedule (start s t (set_depth s d m)) else set_depth s d m
      else m

  pub rt_wait_signal : ℕ → ℕ → State → Retval × State
  rt_wait_signal s t m =
      let depth = (m.kernel.tasks s).suspdepth in
      let m₁ : State = set_depth s (depth +ℤ pos 1) m in
      let m₂ = if eq_ℤ depth (pos 0) then rt_schedule (stop_serving s t m₁) else m₁ in
      if has_signals s m then ((m₂.fields s).retval, m₂) else (code (pos 0), m)

  -- One round: whether there is another, or the fault at an entry that is gone.
  pub trigger_round : ℕ → ℕ → State → Outcome (Bool × State)
  trigger_round i t m = elim (entry i t m) [
    | none ↦ faults
    | some g ↦
        if g.enabled
        then elim g.sigtask [
          | none ↦ faults
          | some s ↦
              let m₁ = rt_exec_signal s (some t) (set_entry i t (record g { enabled = false }) m) in
              elim (entry i t m₁) [
                | none ↦ faults
                | some h ↦
                    returns
                      (h.pending, set_entry i t (record h { enabled = true; pending = false }) m₁)
              ]
        ]
        else returns (false, set_entry i t (record g { pending = true }) m)
  ]

  pub trigger_loop : ℕ → ℕ → ℕ → State → Outcome State
  trigger_loop zero i t m = runs_on
  trigger_loop (suc n) i t m = elim (trigger_round i t m) [
    | faults ↦ faults
    | runs_on ↦ runs_on
    | returns r ↦ elim r.0 [ true ↦ trigger_loop n i t r.1 | false ↦ returns r.1 ]
  ]

  pub rt_trigger_signal : ℕ → ℤ → ℕ → State → Outcome State
  rt_trigger_signal fuel (negsuc j) t m = returns m
  rt_trigger_signal fuel (pos i) t m =
      if has_signals t m
      then elim (entry i t m) [
        | none ↦ faults
        | some g ↦ elim g.sigtask [ none ↦ returns m | some s ↦ trigger_loop fuel i t m ]
      ]
      else returns m

  -- What is done for the task that serves the released signal.
  release_task : ℕ → ℕ → State → State
  release_task s t m =
      let k = m.kernel in
      let x : Task = record (k.tasks s) { priority = (k.tasks t).priority } in
      rt_exec_signal s none (
        set_fields s (record (m.fields s) { rt_signals = nothing })
          (with_kernel (set_task s x k) m))

  rt_release_signal : ℤ → ℕ → State → Outcome (ℤ × State)
  rt_release_signal (negsuc j) t m = returns (einval, m)
  rt_release_signal (pos i) t m =
      if has_signals t m
      then elim (entry i t m) [
        | none ↦ faults
        | some g ↦ elim g.sigtask [
          | none ↦ returns (einval, m)
          | some s ↦
              let m₁ = release_task s t m in
              elim (entry i t m₁) [
                | none ↦ faults
                | some h ↦ returns (pos 0, set_entry i t (record h { sigtask = none }) m₁)
              ]
        ]
      ]
      else returns (einval, m)

-- rt_task_resume and rt_task_suspend run rt_schedule() last, if at all.
module _ (rt_schedule : State → State) (get_time : Kernel → ℕ) where
  makes_ready : ℕ → Kernel → Bool
  makes_ready t k =
      let x = k.tasks t in
      x.magic
      && eq_ℤ (x.suspdepth -ℤ pos 1) (pos 0)
      && is_ready (record x.state { suspended = false; delayed = false })

  resume : ℕ → State → State
  resume t m =
      let m₁ = with_kernel (rt_task_resume (λ k. k) get_time t m.kernel).1 m in
      if makes_ready t m.kernel then rt_schedule m₁ else m₁

  suspend : ℕ → State → State
  suspend t m =
      let x = m.kernel.tasks t in
      let m₁ = with_kernel (rt_task_suspend (λ k. k) get_time t m.kernel).1 m in
      if x.magic && suspends_now x && (t == m.kernel.current) then rt_schedule m₁ else m₁

  -- the end of rt_request_signal_
  answer : ℤ → ℕ → State → ℤ × State
  answer r t m = (r, resume t (set_fields t (record (m.fields t) { retval = code r }) m))

  -- For NULL the task is written to all the same. `memory` is whether rt_malloc finds some.
  rt_request_signal_ : Bool → Option ℕ → Option ℕ → ℤ → State → Outcome (ℤ × State)
  rt_request_signal_ memory s none i m = faults
  rt_request_signal_ memory none (some t) i m = returns (answer einval t m)
  rt_request_signal_ memory (some s) (some t) (negsuc j) m = returns (answer einval t m)
  rt_request_signal_ memory (some s) (some t) (pos i) m = elim (get_array memory t m) [
    | none ↦ returns (answer enomem t m)
    | some m₁ ↦ elim (install s t i m₁) [
      | faults ↦ faults
      | runs_on ↦ runs_on
      | returns m₂ ↦ returns (answer (pos 0) t m₂)
    ]
  ]

  rt_signal_helper : Option ℕ → State → Retval × State
  rt_signal_helper none m = (code (pos (m.fields m.kernel.current).runnable_on_cpus), m)
  rt_signal_helper (some t) m = let m₁ = suspend t m in ((m₁.fields t).retval, m₁)
