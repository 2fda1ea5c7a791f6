-- ===== src/Sched/Wake.antt =====
-- wake_up_timed_tasks wakes the tasks whose time has come, and no other.
use mathlib.Core.Path.{fun_ext}
use rtai.Base.{
  ℕ, ◌+◌, ◌≤◌, ◌<◌, ◌≡◌, refl, ap, sym, subst, ◌∙◌, List, [], ◌∷◌, ◌++◌, arith, All, All-map,
  Bool-cases, leb, inl, inr, if◌then◌else◌, leb→le, true, false, Bool,
}
use rtai.Base.Int.{ltb_ℤ, pos}
use rtai.Kernel.{Kernel, is_ready}
use rtai.Sched.{
  wake_up_task, wake_up_loop, wake_up_from, wake_up_timed_tasks, resume_time_of, enq_ready_task,
  enq_ready_edf_task, clear_timed,
}
use rtai.Sched.Order.{Sorted}
use rtai.Sched.Entering.{to_wake, Entered, Entered-cons}

abbrev is_delayed : Kernel → ℕ → Bool
is_delayed k t = (k.tasks t).state.delayed

-- What waking tasks leaves alone.
pub record Frame (k k' : Kernel) : Type 0 where
  pub time : k'.time_h ≡ k.time_h
  pub times : (u : ℕ) → resume_time_of k' u ≡ resume_time_of k u
  pub stays_off : (u : ℕ) → is_delayed k u ≡ false → is_delayed k' u ≡ false

Frame-trans : {k l m : Kernel} → Frame k l → Frame l m → Frame k m
Frame-trans p q = record {
  time = q.time ∙ p.time;
  times = λ u. q.times u ∙ p.times u;
  stays_off = λ u h. q.stays_off u (p.stays_off u h);
}

enq_ready_task-Frame : (t : ℕ) (k : Kernel) → Frame k (enq_ready_task t k)
unfolding enq_ready_task
enq_ready_task-Frame t k = elim (Bool-cases (k.tasks t).is_hard) [
  | inl e ↦ rw e (record { time = refl; times = λ u. refl; stays_off = λ u h. h })
  | inr e ↦
      rw e (record { time = refl; times = λ u. ground arith; stays_off = λ u h. ground arith })
]

to_wake-Frame : (t : ℕ) (k : Kernel) → Frame k (to_wake t k)
to_wake-Frame t k = record {
  time = refl;
  times = λ u. ground arith;
  stays_off = λ u h. ground arith;
}

Frame-if : (b : Bool) {k l m : Kernel} → Frame k l → Frame k m → Frame k (if b then l else m)
Frame-if true p q = p
Frame-if false p q = q

-- Waking a task leaves it not delayed, and every other as it was in this.
wake_up_task-Frame :
    (t : ℕ) (k : Kernel) → Frame k (wake_up_task t k) × (is_delayed (wake_up_task t k) t ≡ false)
unfolding wake_up_task
wake_up_task-Frame t k = (Frame-trans (to_wake-Frame t k) f, f.stays_off t (ground arith))
  where
    edf : Frame (to_wake t k) (enq_ready_edf_task t (to_wake t k))
    edf =
        unfold enq_ready_edf_task in record { time = refl; times = λ u. refl; stays_off = λ u h. h }

    f : Frame (to_wake t k) (wake_up_task t k)
    f =
        Frame-if (is_ready (clear_timed (k.tasks t).state))
          (Frame-if (ltb_ℤ (k.tasks t).policy (pos 0)) edf (enq_ready_task-Frame t (to_wake t k)))
          (record { time = refl; times = λ u. refl; stays_off = λ u h. h })

-- Of the list ts, the tasks `gone` have been woken and the others, not yet due, are left.
record Woken (ts : List ℕ) (k k' : Kernel) : Type 0 where
  gone : List ℕ
  split : ts ≡ gone ++ k'.timed
  due : All (λ t. resume_time_of k t ≤ k.time_h) gone
  waiting : All (λ t. k.time_h < resume_time_of k t) k'.timed
  not_delayed : All (λ t. is_delayed k' t ≡ false) gone
  entered : Entered gone k k'
  frame : Frame k k'

Woken-cons :
    (t : ℕ) (ts : List ℕ) (k k' : Kernel)
    → Woken ts (wake_up_task t k) k'
    → resume_time_of k t ≤ k.time_h
    → Woken (t ∷ ts) k k'
Woken-cons t ts k k' w h =
    let (f, off) = wake_up_task-Frame t k in
    record {
      gone = t ∷ w.gone;
      split = ap (◌∷◌ t) w.split;
      due = (h, All-map (λ u d. omega (arith, f.times u, f.time)) w.gone w.due);
      waiting = All-map (λ u d. omega (arith, f.times u, f.time)) _ w.waiting;
      not_delayed = (w.frame.stays_off t off, w.not_delayed);
      entered = Entered-cons t w.gone k k' w.entered;
      frame = Frame-trans f w.frame;
    }

wake_up_loop-Woken :
    (ts : List ℕ) (k : Kernel) → Sorted (resume_time_of k) ts → Woken ts k (wake_up_loop ts k)
unfolding wake_up_loop
wake_up_loop-Woken [] k s = record {
  gone = [];
  split = refl;
  due = tt;
  waiting = tt;
  not_delayed = tt;
  entered = λ u. omega arith;
  frame = record { time = refl; times = λ u. refl; stays_off = λ u h. h };
}
wake_up_loop-Woken (t ∷ ts) k s = elim (Bool-cases (leb (k.tasks t).resume_time k.time_h)) [
  | inl e ↦
      let k₁ = wake_up_task t k in
      let f = (wake_up_task-Frame t k).0 in
      let s₁ : Sorted (resume_time_of k₁) ts =
        subst (λ key. Sorted key ts) (sym (fun_ext f.times)) s.1 in
      let w = wake_up_loop-Woken ts k₁ s₁ in
      rw (e, wake_up_loop) (Woken-cons t ts k (wake_up_loop ts k₁) w (leb→le _ _ e))
  | inr e ↦
      let late : k.time_h < resume_time_of k t = ground arith in
      rw (e, wake_up_loop)
        (record {
          gone = [];
          split = refl;
          due = tt;
          waiting = (late, All-map (λ u h. omega arith) ts s.0);
          not_delayed = tt;
          entered = λ u. omega arith;
          frame = record { time = refl; times = λ u. refl; stays_off = λ u h. h };
        })
]

-- From k to k' either the first task t of the list is not due, even with its latency, and nothing
-- changes; or t is due, and of the tasks ts behind it those in `gone` are woken.
pub data Waking (k : Kernel) (t : ℕ) (ts : List ℕ) (k' : Kernel) : Type 0 where
  too_early : k.time_h + (k.tasks t).schedlat < resume_time_of k t → k' ≡ k → Waking k t ts k'
  woken :
      (gone : List ℕ)
      → resume_time_of k t ≤ k.time_h + (k.tasks t).schedlat
      → ts ≡ gone ++ k'.timed
      → All (λ u. resume_time_of k u ≤ k.time_h) gone
      → All (λ u. k.time_h < resume_time_of k u) k'.timed
      → All (λ u. is_delayed k' u ≡ false) (t ∷ gone)
      → Entered (t ∷ gone) k k'
      → Waking k t ts k'

wake_up_from-Waking :
    (k : Kernel) (t : ℕ) (ts : List ℕ)
    → Sorted (resume_time_of k) (t ∷ ts)
    → Waking k t ts (wake_up_from (t ∷ ts) k)
unfolding wake_up_from
wake_up_from-Waking k t ts s =
    elim (Bool-cases (leb (k.tasks t).resume_time (k.time_h + (k.tasks t).schedlat))) [
      | inl e ↦
          let (f, off) = wake_up_task-Frame t k in
          let s₁ : Sorted (resume_time_of (wake_up_task t k)) ts =
            subst (λ key. Sorted key ts) (sym (fun_ext f.times)) s.1 in
          let w = wake_up_loop-Woken ts (wake_up_task t k) s₁ in
          rw e (
            Waking.woken w.gone (leb→le _ _ e) w.split
              (All-map (λ u d. omega (arith, f.times u, f.time)) w.gone w.due)
              (All-map (λ u d. omega (arith, f.times u, f.time)) _ w.waiting)
              (w.frame.stays_off t off, w.not_delayed)
              (Entered-cons t w.gone k (wake_up_loop ts (wake_up_task t k)) w.entered))
      | inr e ↦ rw e (Waking.too_early (ground arith) refl)
    ]

-- Where the timed tasks are sorted by the time of resumption, wake_up_timed_tasks changes nothing, if the
-- first of them is not due even with its latency; otherwise it wakes that one, and of the others
-- those whose time has come and no other: the woken tasks are not delayed any more, the list
-- keeps the tasks whose time is still to come, and the ready list gets one entry for each woken
-- task that awaits nothing else, if it is a hard real time task or under the deadline policy, and no
-- other.
pub wake_up_timed_tasks-Waking :
    (k : Kernel) (t : ℕ) (ts : List ℕ)
    → k.timed ≡ t ∷ ts
    → Sorted (resume_time_of k) k.timed
    → Waking k t ts (wake_up_timed_tasks k)
unfolding wake_up_timed_tasks
wake_up_timed_tasks-Waking k t ts e s =
    subst (λ l. Waking k t ts (wake_up_from l k)) (sym e)
      (wake_up_from-Waking k t ts (subst (Sorted (resume_time_of k)) e s))

pub wake_up_timed_tasks-none : (k : Kernel) → k.timed ≡ [] → wake_up_timed_tasks k ≡ k
unfolding wake_up_timed_tasks wake_up_from
wake_up_timed_tasks-none k e = ap (λ l. wake_up_from l k) e
