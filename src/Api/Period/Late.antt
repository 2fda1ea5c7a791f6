-- ===== src/Api/Period/Late.antt =====
-- A time of resumption that is moved forward (src/sched/api.c, rt_set_resume_time).
use rtai.Base.{
  ℕ, ◌≡◌, ◌<◌, refl, ap, subst, ◌∙◌, List, [], ◌∷◌, arith, true, false, Bool-cases, inl, inr, not,
  ◌==◌, ==_self, ltb, if_true, if_false, if◌then◌else◌, Option, none, some,
}
use rtai.Kernel.{Kernel, Task, set_task}
use rtai.Base.Int.{ℤ, pos}
use rtai.Sched.{resume_time_of, enq_timed_task, rem_timed_task}
use rtai.Sched.Order.{Sorted}
use rtai.Api.Period.{rt_set_resume_time, next_timed, etime}

-- The valid task t waits directly behind the task p, and is to be resumed before it.
pub record Overtakes (t p time : ℕ) (ts : List ℕ) (k : Kernel) : Type 0 where
  pub valid : (k.tasks t).magic ≡ true
  pub delayed : (k.tasks t).state.delayed ≡ true
  pub list : k.timed ≡ p ∷ t ∷ ts
  pub others : (p == t) ≡ false
  pub sorted : Sorted (resume_time_of k) (p ∷ t ∷ ts)
  pub earlier : time < resume_time_of k p

-- the new time stored, and no more
abbrev stored : ℕ → ℕ → Kernel → Kernel
stored t time k = set_task t (record (k.tasks t) { resume_time = time }) k

next_timed-second :
    (t p : ℕ) (ts : List ℕ)
    → (p == t) ≡ false
    → next_timed t (p ∷ t ∷ ts) ≡ elim ts [ [] ↦ none | u ∷ us ↦ some u ]
unfolding next_timed
next_timed-second t p ts e = rw (e, ==_self t) refl

-- the choice at the end of rt_set_resume_time
abbrev moved : ℕ → ℕ → Kernel → Option ℕ → ℤ × Kernel
moved t time k o = elim o [
  | none ↦ (etime, k)
  | some u ↦
      if ltb (resume_time_of k u) time
      then (pos 0, enq_timed_task t (rem_timed_task t k))
      else (etime, k)
]

not_moved :
    (t p time : ℕ) (ts : List ℕ) (k : Kernel)
    → Overtakes t p time ts k
    → moved t time (stored t time k) (elim ts [ [] ↦ none | u ∷ us ↦ some u ])
      ≡ (etime, stored t time k)
not_moved t p time [] k h = refl
not_moved t p time (u ∷ us) k h =
    let before = h.sorted.0.1.0 in
    if_false {b = ltb (resume_time_of (stored t time k) u) time} _ _ (elim (Bool-cases (t == u)) [
      | inl e ↦ rw (resume_time_of, e) (ground arith)
      | inr e ↦ rw (resume_time_of, e) (ground (arith, before, h.earlier))
    ])

rt_set_resume_time-stored :
    (t p time : ℕ) (ts : List ℕ) (k : Kernel)
    → Overtakes t p time ts k
    → rt_set_resume_time t time k ≡ (etime, stored t time k)
unfolding rt_set_resume_time
rt_set_resume_time-stored t p time ts k h =
    if_false _ _ (ap not h.valid)
    ∙ if_false _ _ (ap not h.delayed)
    ∙ ap (λ l. moved t time (stored t time k) (next_timed t l)) h.list
    ∙ ap (moved t time (stored t time k)) (next_timed-second t p ts h.others)
    ∙ not_moved t p time ts k h

-- A delayed task is the second of the timed tasks, which are sorted, and gets a time of resumption before
-- that of the first. rt_set_resume_time returns -ETIME, and yet stores the time and leaves the task
-- where it is, so that the list is not sorted any more.
pub rt_set_resume_time-unsorted :
    (t p time : ℕ) (ts : List ℕ) (k : Kernel)
    → Overtakes t p time ts k
    → let r = rt_set_resume_time t time k in
      (r.0 ≡ etime) × (resume_time_of r.1 t ≡ time) × (¬ Sorted (resume_time_of r.1) r.1.timed)
rt_set_resume_time-unsorted t p time ts k h =
    let e = rt_set_resume_time-stored t p time ts k h in
    let l = stored t time k in
    let now : resume_time_of l t ≡ time =
      ap (λ (x : Task). x.resume_time) (if_true _ _ (==_self t)) in
    let first : resume_time_of l p ≡ resume_time_of k p = ground (arith, h.others) in
    (
      ap (λ r. r.0) e,
      ap (λ r. resume_time_of r.1 t) e ∙ now,
      λ s.
          let s' : Sorted (resume_time_of l) (p ∷ t ∷ ts) =
            subst (Sorted (resume_time_of l)) h.list
              (subst (λ (m : Kernel). Sorted (resume_time_of m) m.timed) (ap (λ r. r.1) e) s) in
          absurd (omega (arith, s'.0.0, now, first, h.earlier)),
    )
