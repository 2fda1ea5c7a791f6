-- ===== src/Signals/Trigger.antt =====
-- rt_trigger_signal comes to its end, and to what (src/sched/signal.c).
use rtai.Base.{
  ℕ, zero, suc, ◌<◌, ◌≡◌, refl, ap, ◌∙◌, arith, List, [], ◌∷◌, Bool, true, false, not, some,
  get_elem?, set, length, get_elem?-set_self,
}
use rtai.Base.Int.{pos}
use rtai.Signals.{
  Signal, RtSignals, nothing, serves, array, Fields, State, Outcome, faults, runs_on, returns,
  signals_of, entry, set_entry, has_signals, rt_exec_signal, trigger_round, trigger_loop,
  rt_trigger_signal,
}
use rtai.Sched.Count.{occurrences}
use rtai.Signals.Serving.{Counted, Values-by, update_self}
use rtai.Signals.Start.{rt_exec_signal-by}
use rtai.Signals.Calls.{other_task}

-- The signal i of t is installed, and served by the task s; its two bits are these.
pub record Installed (t i s : ℕ) (ss : List ℕ) (enabled pending : Bool) (m : State) : Type 0 where
  pub counted : Counted t ss m
  pub signal : Signal
  pub stored : entry i t m ≡ some signal
  pub enabled_bit : signal.enabled ≡ enabled
  pub pending_bit : signal.pending ≡ pending
  pub serving : signal.sigtask ≡ some s

-- A service that returns a state of which Q holds.
abbrev pub Gives : (State → Type 0) → Outcome State → Type 0
Gives Q faults = ⊥
Gives Q runs_on = ⊥
Gives Q (returns m) = Q m

in_range {ℓ} : {A : Type ℓ} (xs : List A) (i : ℕ) (a : A) → get_elem? xs i ≡ some a → i < length xs
in_range [] i a e = cc
in_range (x ∷ xs) zero a e = omega arith
in_range (x ∷ xs) (suc i) a e = let h = in_range xs i a e in omega (arith, h)

installed :
    (r : RtSignals) (i : ℕ) (g : Signal)
    → get_elem? (signals_of r) i ≡ some g
    → elim r [ nothing ↦ false | other ↦ true ] ≡ true
installed nothing i g e = cc
installed serves i g e = refl
installed (array gs) i g e = refl

module _ (t i s : ℕ) (ss : List ℕ) where
  -- A write to the entry that leaves the serving task.
  set_entry-Installed :
      {e b e' b' : Bool} (g : Signal) (m : State) (h : Installed t i s ss e b m)
      → g.sigtask ≡ h.signal.sigtask
      → g.enabled ≡ e'
      → g.pending ≡ b'
      → Installed t i s ss e' b' (set_entry i t g m)
  set_entry-Installed g m h same p q =
      let gs = signals_of (m.fields t).rt_signals in
      let f : Fields = record (m.fields t) { rt_signals = array (set gs i g) } in
      let self = update_self m.fields t f in
      let v = h.counted.stopped in
      record {
        counted = record {
          stopped = Values-by refl self refl (record {
            marked = v.marked;
            else_ready = v.else_ready;
            listed = v.listed;
            hard = v.hard;
          });
          counted = ap (λ (f' : Fields). f'.pstate) self ∙ h.counted.counted;
        };
        signal = g;
        stored =
            ap (λ (f' : Fields). get_elem? (signals_of f'.rt_signals) i) self
            ∙ get_elem?-set_self gs i g (in_range gs i h.signal h.stored);
        enabled_bit = p;
        pending_bit = q;
        serving = same ∙ h.serving;
      }

  -- The array is the same.
  same_array :
      {e b : Bool} (m m' : State)
      → Installed t i s ss e b m
      → Counted t ss m'
      → (m'.fields t).rt_signals ≡ (m.fields t).rt_signals
      → Installed t i s ss e b m'
  same_array m m' h c same = record {
    counted = c;
    signal = h.signal;
    stored = ap (λ r. get_elem? (signals_of r) i) same ∙ h.stored;
    enabled_bit = h.enabled_bit;
    pending_bit = h.pending_bit;
    serving = h.serving;
  }

  module _ (apart : occurrences t ss ≡ 0) (once : occurrences s ss ≡ 1)
      (rt_schedule : State → State)
      (env : (b : Bool) (m : State)
        → Installed t i s ss false b m
        → Installed t i s ss false b (rt_schedule m)) where
    served :
        (b : Bool) (m : State) (h : Installed t i s ss false b m)
        → Installed t i s ss false b (rt_exec_signal rt_schedule s (some t) m)
    served b m h =
        rt_exec_signal-by s t (other_task s t ss once apart) ss once rt_schedule
          (Installed t i s ss false b) m (λ m' c e. same_array m m' h c e)
          (λ m' c e. env b m' (same_array m m' h c e)) h.counted

    -- What a round of an enabled signal returns.
    record Round (b : Bool) (r : Outcome (Bool × State)) : Type 0 where
      after : State
      result : r ≡ returns (b, after)
      kept : Installed t i s ss true false after

    round :
        (b : Bool) (m : State)
        → Installed t i s ss true b m
        → Round b (trigger_round rt_schedule i t m)
    unfolding trigger_round
    round b m h =
        let g : Signal = record h.signal { enabled = false } in
        let h₁ : Installed t i s ss false b (set_entry i t g m) =
          set_entry-Installed g m h refl refl h.pending_bit in
        let m₁ = rt_exec_signal rt_schedule s (some t) (set_entry i t g m) in
        let h₂ : Installed t i s ss false b m₁ = served b (set_entry i t g m) h₁ in
        let g₂ : Signal = record h₂.signal { enabled = true; pending = false } in
        rw (trigger_round, h.stored, h.enabled_bit, h.serving, h₂.stored, h₂.pending_bit)
          (record {
            after = set_entry i t g₂ m₁;
            result = refl;
            kept = set_entry-Installed g₂ m₁ h₂ refl refl refl;
          })

    -- A pending signal takes a second round.
    loop :
        (n : ℕ) (b : Bool) (m : State)
        → Installed t i s ss true b m
        → Gives (Installed t i s ss true false) (trigger_loop rt_schedule (suc (suc n)) i t m)
    unfolding trigger_loop
    loop n false m h = let r = round false m h in rw (trigger_loop, r.result) r.kept
    loop n true m h =
        let r = round true m h in
        let r' = round false r.after r.kept in rw (trigger_loop, r.result, r'.result) r'.kept

    disabled :
        (n : ℕ) (b : Bool) (m : State)
        → Installed t i s ss false b m
        → Gives (Installed t i s ss false true) (trigger_loop rt_schedule (suc (suc n)) i t m)
    unfolding trigger_loop trigger_round
    disabled n b m h =
        let g : Signal = record h.signal { enabled = false; pending = true } in
        rw (trigger_loop, trigger_round, h.stored, h.enabled_bit)
          (set_entry-Installed g m h refl refl refl)

    triggered :
        (n : ℕ) (e b : Bool) (m : State)
        → Installed t i s ss e b m
        → Gives (Installed t i s ss e (not e)) (trigger_loop rt_schedule (suc (suc n)) i t m)
    triggered n true b m h = loop n b m h
    triggered n false b m h = disabled n b m h

-- The tasks ss, s once among them and t not, serve the signals of the task t, which is stopped as long
-- as one of them does (`Counted`). Signal i of t is installed with the serving task s. As long as it is
-- disabled, rt_schedule() keeps all this, and the two bits of the signal: nobody enables or triggers
-- it meanwhile. Then rt_trigger_signal returns after at most two rounds; t is stopped as long as one
-- of its signals is being served; and an enabled signal is left enabled and not pending, a disabled one
-- disabled and pending.
pub rt_trigger_signal-Gives :
    (t i s : ℕ) (ss : List ℕ) (rt_schedule : State → State)
    → occurrences t ss ≡ 0
    → occurrences s ss ≡ 1
    → ((b : Bool) (m : State)
        → Installed t i s ss false b m
        → Installed t i s ss false b (rt_schedule m))
    → (n : ℕ) (e b : Bool) (m : State) → Installed t i s ss e b m
    → Gives (Installed t i s ss e (not e)) (rt_trigger_signal rt_schedule (suc (suc n)) (pos i) t m)
unfolding rt_trigger_signal has_signals
rt_trigger_signal-Gives t i s ss sch apart once env n e b m h =
    rw
      (
        rt_trigger_signal,
        installed (m.fields t).rt_signals i h.signal h.stored,
        h.stored,
        h.serving,
      )
      (triggered t i s ss apart once sch env n e b m h)
