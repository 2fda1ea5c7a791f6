-- ===== src/Signals/Calls.antt =====
-- Any sequence of starts and ends of the service of a task's signals (src/sched/signal.c).
use rtai.Base.{ℕ, ◌≡◌, ap, arith, List, [], ◌∷◌, false, Bool-cases, inl, inr, ◌==◌, some, All}
use rtai.Signals.{State, rt_exec_signal, rt_wait_signal}
use rtai.Sched.Count.{occurrences}
use rtai.Signals.Serving.{Counted}
use rtai.Signals.Start.{rt_exec_signal-Counted, rt_wait_signal-Counted}

-- For a task that serves a signal: the signal is triggered, or the task waits for the next.
pub data Call : Type 0 where
  begins : ℕ → Call
  waits : ℕ → Call

abbrev pub server : Call → ℕ
server (begins s) = s
server (waits s) = s

unfoldable pub serve : (State → State) → ℕ → Call → State → State
serve rt_schedule t (begins s) m = rt_exec_signal rt_schedule s (some t) m
serve rt_schedule t (waits s) m = (rt_wait_signal rt_schedule s t m).1

unfoldable pub run : (State → State) → ℕ → List Call → State → State
run rt_schedule t [] m = m
run rt_schedule t (c ∷ cs) m = run rt_schedule t cs (serve rt_schedule t c m)

-- A task that does not serve is none that does.
pub other_task :
    (s t : ℕ) (ss : List ℕ) → occurrences s ss ≡ 1 → occurrences t ss ≡ 0 → (s == t) ≡ false
other_task s t ss p q = elim (Bool-cases (s == t)) [
  | inr e ↦ e
  | inl e ↦
      let s≡t : s ≡ t = ground (arith, e) in
      let same : occurrences s ss ≡ occurrences t ss = ap (λ i. occurrences i ss) s≡t in
      absurd (omega (arith, p, q, same))
]

module _ (t : ℕ) (ss : List ℕ) (apart : occurrences t ss ≡ 0) (rt_schedule : State → State)
    (env : (m : State) → Counted t ss m → Counted t ss (rt_schedule m)) where
  serve-Counted :
      (c : Call) (m : State)
      → occurrences (server c) ss ≡ 1
      → Counted t ss m
      → Counted t ss (serve rt_schedule t c m)
  unfolding serve
  serve-Counted (begins s) m once h =
      rt_exec_signal-Counted s t (other_task s t ss once apart) ss once rt_schedule env m h
  serve-Counted (waits s) m once h =
      rt_wait_signal-Counted s t (other_task s t ss once apart) ss once rt_schedule env m h

-- The tasks ss, without repetition and without t, serve the signals of the hard real time task t.
-- In the state m, t waits for nothing but these; t is in the ready list once and unmarked if pstate
-- is 0, and off the list and marked by RT_SCHED_SIGSUSP if not; pstate is the number of tasks in ss
-- with no suspension pending. rt_schedule() keeps that. Then any sequence of starts by rt_exec_signal
-- and of calls of rt_wait_signal, for tasks in ss, leaves such a state: t is stopped as long as one of
-- its signals is being served, and goes on when the last one has been.
pub run-Counted :
    (t : ℕ) (ss : List ℕ) (rt_schedule : State → State)
    → occurrences t ss ≡ 0
    → ((m : State) → Counted t ss m → Counted t ss (rt_schedule m))
    → (cs : List Call) (m : State) → All (λ c. occurrences (server c) ss ≡ 1) cs
    → Counted t ss m
    → Counted t ss (run rt_schedule t cs m)
unfolding run
run-Counted t ss rt_schedule apart env [] m a h = h
run-Counted t ss rt_schedule apart env (c ∷ cs) m a h =
    run-Counted t ss rt_schedule apart env cs (serve rt_schedule t c m) a.1
      (serve-Counted t ss apart rt_schedule env c m a.0 h)
