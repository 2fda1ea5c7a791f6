-- ===== src/Signals/Tests.antt =====
-- Examples of signals (src/sched/signal.c).
use rtai.Base.{ℕ, ◌≡◌, refl, [], ◌∷◌, true, false, some, ◌==◌, if◌then◌else◌}
use rtai.Base.Int.{pos, ◌-ℤ◌, ◌+ℤ◌}
use rtai.Kernel.{Task, is_ready, nothing_awaited, unlink}
use rtai.Kernel.Samples.{ready_task, ready_state, a_kernel, a_sem}
use rtai.Sched.{insert_after_equals, enq_ready_task, rem_ready_task, rem_ready_current}
use rtai.Signals.{
  Signal, serves, array, code, Fields, State, faults, rt_request_signal_, rt_exec_signal,
  rt_wait_signal, start, stop_served, make_ready, stop_serving, let_go, has_signals, get_array,
  install, rt_trigger_signal,
}
use rtai.Signals.Serving.{Counted}
use rtai.Signals.Trigger.{Installed, Gives, rt_trigger_signal-Gives}
use rtai.Signals.Calls.{begins, waits, run, serve, run-Counted}
use rtai.Kernel.{nobody}

-- Task 1 runs; the tasks 2 and 3 wait for its signals 0 and 1.
abbrev tasks : ℕ → Task
tasks i =
    if i == 1
    then ready_task 5
    else record (ready_task 7) { suspdepth = pos 1; state = record ready_state { sigsusp = true } }

abbrev served_by : ℕ → Signal
served_by s = record { enabled = true; pending = false; sigtask = some s }

abbrev fields : ℕ → Fields
fields i = record {
  pstate = 0;
  retval = code (pos 0);
  rt_signals = if i == 1 then array (served_by 2 ∷ served_by 3 ∷ []) else serves;
  runnable_on_cpus = 0;
}

abbrev two_signals : State
two_signals = record {
  kernel = a_kernel tasks (λ s. a_sem (pos 1) (pos 1) nobody []) (1 ∷ 9 ∷ []);
  fields = fields;
}

two_signals-Counted : Counted 1 (2 ∷ 3 ∷ []) two_signals
unfolding is_ready nothing_awaited
two_signals-Counted = record {
  stopped = record { marked = refl; else_ready = refl; listed = refl; hard = refl };
  counted = refl;
}

run-Counted_example :
    Counted 1
      (2 ∷ 3 ∷ [])
      (run (λ m. m) 1 (begins 2 ∷ begins 3 ∷ waits 2 ∷ waits 3 ∷ []) two_signals)
run-Counted_example =
    run-Counted 1 (2 ∷ 3 ∷ []) (λ m. m) refl (λ m h. h)
      (begins 2 ∷ begins 3 ∷ waits 2 ∷ waits 3 ∷ []) two_signals (refl, (refl, (refl, (refl, tt))))
      two_signals-Counted

-- The handler of the signal 0 has not run yet when the trigger returns to task 1.
signal_0-Installed : Installed 1 0 2 (2 ∷ 3 ∷ []) true false two_signals
signal_0-Installed = record {
  counted = two_signals-Counted;
  signal = served_by 2;
  stored = refl;
  enabled_bit = refl;
  pending_bit = refl;
  serving = refl;
}

rt_trigger_signal-Gives_example :
    Gives
      (Installed 1 0 2 (2 ∷ 3 ∷ []) true false)
      (rt_trigger_signal (λ m. m) 2 (pos 0) 1 two_signals)
rt_trigger_signal-Gives_example =
    rt_trigger_signal-Gives 1 0 2 (2 ∷ 3 ∷ []) (λ m. m) refl refl (λ b m h. h) 0 true false
      two_signals signal_0-Installed

-- The task is off the ready list while its signals are served, and back when the last one has been.
while_served : (run (λ m. m) 1 (begins 2 ∷ begins 3 ∷ []) two_signals).kernel.ready ≡ 2 ∷ 3 ∷ 9 ∷ []
unfolding run serve rt_exec_signal start stop_served make_ready rem_ready_task rem_ready_current
    is_ready nothing_awaited enq_ready_task insert_after_equals unlink ◌-ℤ◌
while_served = refl

when_served :
    (run (λ m. m) 1 (begins 2 ∷ begins 3 ∷ waits 3 ∷ waits 2 ∷ []) two_signals).kernel.ready
    ≡ 1 ∷ 9 ∷ []
unfolding run serve rt_exec_signal rt_wait_signal start stop_serving let_go stop_served make_ready
    rem_ready_task rem_ready_current is_ready nothing_awaited enq_ready_task insert_after_equals
    unlink ◌-ℤ◌ ◌+ℤ◌ has_signals
when_served = refl

-- A signal beyond the array is written all the same.
beyond_array :
    rt_request_signal_ (λ m. m) (λ k. 0) true (some 2) (some 4) (pos 16) two_signals ≡ faults
unfolding rt_request_signal_ get_array install
beyond_array = refl
