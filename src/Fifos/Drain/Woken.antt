-- ===== src/Fifos/Drain/Woken.antt =====
-- What rtf_sysrq_handler wakes.
use rtai.Base.{
  ℕ, zero, suc, ◌<◌, ◌≡◌, ◌≢◌, refl, ap, sym, subst, ◌∙◌, List, [], ◌∷◌, ◌++◌, Bool, Bool-cases,
  inl, inr, ◌==◌, arith, if◌then◌else◌,
}
use mathlib.Core.List.{append_assoc, append-nil}
use rtai.Fifos.State.{Fifos, advance, head_of, maxreqs}
use rtai.Fifos.State.Queue.{InBounds, count, to_wake, advance-Advanced, count-bound, to_wake-none}
use rtai.Fifos.Drain.{wake_loop, poll_loop, rtf_sysrq_handler}

-- those of a list that are asleep
abbrev pub those : (ℕ → Bool) → List ℕ → List ℕ
those asleep [] = []
those asleep (t ∷ ts) = if asleep t then t ∷ those asleep ts else those asleep ts

those-first :
    (asleep : ℕ → Bool) (woken : List ℕ) (t : ℕ) (ts : List ℕ)
    → (if asleep t then woken ++ (t ∷ []) else woken) ++ those asleep ts
      ≡ woken ++ those asleep (t ∷ ts)
those-first asleep woken t ts = elim (Bool-cases (asleep t)) [
  | inl e ↦ rw e (append_assoc woken (t ∷ []) (those asleep ts))
  | inr e ↦ rw e refl
]

record Drained (asleep : ℕ → Bool) (s t : Fifos) : Type 0 where
  bounds : InBounds t.taskq
  none_left : t.taskq.out_at ≡ t.taskq.in_at
  woken : t.woken ≡ s.woken ++ those asleep (to_wake s.taskq)
  same_polls : t.pol_asyn_q ≡ s.pol_asyn_q

wake_loop-Drained :
    (asleep : ℕ → Bool) (fuel : ℕ) (s : Fifos)
    → InBounds s.taskq
    → count s.taskq < fuel
    → Drained asleep s (wake_loop asleep fuel s)
unfolding wake_loop
wake_loop-Drained asleep zero s b f = absurd (omega arith)
wake_loop-Drained asleep (suc fuel) s b f = elim (Bool-cases (s.taskq.out_at == s.taskq.in_at)) [
  | inl done ↦
      let e : s.taskq.out_at ≡ s.taskq.in_at = ground arith in
      rw (done, wake_loop)
        (record {
          bounds = b;
          none_left = e;
          woken = rw (to_wake-none s.taskq b e) (sym (append-nil s.woken));
          same_polls = refl;
        })
  | inr more ↦
      let ne : s.taskq.out_at ≢ s.taskq.in_at = λ e. ground arith in
      let a = advance-Advanced s.taskq b ne in
      let t = head_of s.taskq in
      let next = record s {
        woken = if asleep t then s.woken ++ (t ∷ []) else s.woken;
        taskq = advance s.taskq;
      } in
      let rest = wake_loop-Drained asleep fuel next a.bounds (omega arith) in
      rw (more, wake_loop)
        (record {
          bounds = rest.bounds;
          none_left = rest.none_left;
          woken =
              rest.woken
              ∙ those-first asleep s.woken t (to_wake (advance s.taskq))
              ∙ ap (λ l. s.woken ++ those asleep l) (sym a.first);
          same_polls = rest.same_polls;
        })
]

record Polled (s t : Fifos) : Type 0 where
  end : t.pol_asyn_q.out_at ≡ t.pol_asyn_q.in_at
  same_woken : t.woken ≡ s.woken
  same_tasks : t.taskq ≡ s.taskq

poll_loop-Polled :
    (fuel : ℕ) (s : Fifos)
    → InBounds s.pol_asyn_q
    → count s.pol_asyn_q < fuel
    → Polled s (poll_loop fuel s)
unfolding poll_loop
poll_loop-Polled zero s b f = absurd (omega arith)
poll_loop-Polled (suc fuel) s b f = elim (Bool-cases (s.pol_asyn_q.out_at == s.pol_asyn_q.in_at)) [
  | inl done ↦
      rw (done, poll_loop) (record { end = ground arith; same_woken = refl; same_tasks = refl })
  | inr more ↦
      let ne : s.pol_asyn_q.out_at ≢ s.pol_asyn_q.in_at = λ e. ground arith in
      let a = advance-Advanced s.pol_asyn_q b ne in
      let rest = poll_loop-Polled fuel _ a.bounds (omega arith) in
      rw (more, poll_loop)
        (record { end = rest.end; same_woken = rest.same_woken; same_tasks = rest.same_tasks })
]

-- With both arrays in bounds the service request handler comes to its end: nothing is pending in
-- either of them, and it has woken those of the pending processes that are asleep, in their order.
pub rtf_sysrq_handler-woken :
    (asleep : ℕ → Bool) (s : Fifos)
    → InBounds s.taskq
    → InBounds s.pol_asyn_q
    → let t = rtf_sysrq_handler asleep s in
      (t.taskq.out_at ≡ t.taskq.in_at)
      × (t.pol_asyn_q.out_at ≡ t.pol_asyn_q.in_at)
      × (t.woken ≡ s.woken ++ those asleep (to_wake s.taskq))
unfolding rtf_sysrq_handler
rtf_sysrq_handler-woken asleep s b c =
    let d = wake_loop-Drained asleep maxreqs s b (count-bound s.taskq) in
    let same = d.same_polls in
    let p =
      poll_loop-Polled maxreqs (wake_loop asleep maxreqs s) (subst InBounds (sym same) c)
        (count-bound _) in
    (
      ap (λ q. q.out_at) p.same_tasks ∙ d.none_left ∙ sym (ap (λ q. q.in_at) p.same_tasks),
      p.end,
      p.same_woken ∙ d.woken,
    )
