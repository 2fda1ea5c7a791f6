-- ===== src/Sem/Wait/Uncontended.antt =====
-- rt_sem_wait of a resource that is free, or that the running task has already (src/ipc/sem/sem.c).
use mathlib.Core.Path.{fun_ext}
use rtai.Base.{
  some, ℕ, ◌≡◌, refl, ap, sym, ◌∙◌, [], arith, true, false, Bool-cases, inl, inr, ◌==◌, ==_self,
  ==_iff, ap₂, ltb,
}
use rtai.Base.Int.{ℤ, pos, ltb_ℤ, leb_ℤ, eq_ℤ, ◌-ℤ◌, ◌+ℤ◌, +ℤ_cancel}
use rtai.Kernel.{Kernel, Sem, nobody, task, set_sem}
use rtai.Sched.{priority_of}
use rtai.Sem.{owned_by, is_owner, count_up}
use rtai.Sem.Signal.{counted, rt_sem_signal}
use rtai.Prio.{enqueue_resqel, dequeue_resqel_reset_task_priority}
use rtai.Prio.RoundTrip.{AtRest, dequeue_resqel-enqueue_resqel}
use rtai.Sem.Signal.Uncontended.{Held, given_back, rt_sem_signal-deeper, rt_sem_signal-Held}
use rtai.Sem.Wait.{
  goes_on, returns, acquired, take_over, count_down, ubi_maior, nested, may_block, rt_sem_wait,
}

-- The resource is free and nobody waits for it.
pub record Free (s : ℕ) (k : Kernel) : Type 0 where
  pub valid : (k.sems s).magic ≡ true
  pub level : (k.sems s).type ≡ pos 1
  pub count : (k.sems s).count ≡ pos 1
  pub owner : (k.sems s).owndby ≡ nobody
  pub alone : (k.sems s).queue ≡ []

-- The running task has taken the resource, which may be taken again.
pub record Nested (s : ℕ) (k : Kernel) : Type 0 where
  pub valid : (k.sems s).magic ≡ true
  pub level : ltb_ℤ (pos 0) (k.sems s).type ≡ true
  pub again : ltb_ℤ (pos 0) (k.sems s).restype ≡ true
  pub count : leb_ℤ (k.sems s).count (pos 0) ≡ true
  pub owner : (k.sems s).owndby ≡ task k.current

-- the state after the running task has taken the resource
pub taken : ℕ → Kernel → Kernel
taken s k = take_over s k.current (count_down s k)

-- the state one level deeper
pub deeper : ℕ → Kernel → Kernel
deeper s k = set_sem s (record (k.sems s) { type = (k.sems s).type +ℤ pos 1 }) k

acquired-count_down :
    (s : ℕ) (k : Kernel)
    → ltb_ℤ (pos 0) (k.sems s).type ≡ true
    → acquired s k.current (count_down s k) ≡ taken s k
unfolding acquired taken count_down
acquired-count_down s k e = rw (==_self s, e) refl

module _ (ntasks : ℕ) (rt_schedule : Kernel → Kernel) where
  pub rt_sem_wait-Free :
      (s : ℕ) (k : Kernel) → Free s k → rt_sem_wait ntasks rt_schedule s k ≡ (pos 1, taken s k)
  unfolding rt_sem_wait
  rt_sem_wait-Free s k h =
      let e : ltb_ℤ (pos 0) (k.sems s).type ≡ true = rw h.level refl in
      rw (h.valid, h.count, acquired-count_down s k e) refl

  ubi_maior-Nested : (s : ℕ) (k : Kernel) → Nested s k → ubi_maior s k ≡ goes_on k
  unfolding ubi_maior
  ubi_maior-Nested s k h =
      let e : ltb (priority_of k k.current) (priority_of k k.current) ≡ false = ground arith in
      rw (ubi_maior, h.owner, e) refl

  nested-Nested :
      (s : ℕ) (k : Kernel)
      → Nested s k
      → nested s k ≡ returns ((k.sems s).type +ℤ pos 1) (deeper s k)
  unfolding nested owned_by is_owner deeper
  nested-Nested s k h =
      let e : eq_ℤ (k.sems s).restype (pos 0) ≡ false = ground (arith, h.again) in
      rw (h.owner, ==_self k.current, e, h.again) refl

  pub rt_sem_wait-Nested :
      (s : ℕ) (k : Kernel)
      → Nested s k
      → rt_sem_wait ntasks rt_schedule s k ≡ ((k.sems s).type +ℤ pos 1, deeper s k)
  unfolding rt_sem_wait may_block
  rt_sem_wait-Nested s k h =
      rw (h.valid, h.count, may_block, h.level, ubi_maior-Nested s k h, nested-Nested s k h) refl

-- the semaphore that is taken by the task c
abbrev held_by : ℕ → Sem → Sem
held_by c m = record m { count = m.count -ℤ pos 1; owndby = task c }

set_sem-set_sem : (s : ℕ) (m n : Sem) (k : Kernel) → set_sem s n (set_sem s m k) ≡ set_sem s n k
set_sem-set_sem s m n k =
    ap (λ f. record k { sems = f })
      (fun_ext (λ j. elim (Bool-cases (s == j)) [ inl e ↦ rw e refl | inr e ↦ rw e refl ]))

set_sem-same : (s : ℕ) (k : Kernel) (m : Sem) → m ≡ k.sems s → set_sem s m k ≡ k
set_sem-same s k m h =
    ap (λ f. record k { sems = f })
      (fun_ext (λ j. elim (Bool-cases (s == j)) [
        | inl e ↦ rw e (h ∙ ap k.sems ((==_iff s j).0 e))
        | inr e ↦ rw e refl
      ]))

taken-held_by :
    (s : ℕ) (k : Kernel)
    → taken s k ≡ enqueue_resqel k.current (set_sem s (held_by k.current (k.sems s)) k)
unfolding taken take_over count_down
taken-held_by s k = rw (==_self s) (ap (enqueue_resqel k.current) (set_sem-set_sem s _ _ k))

-- Who takes a free resource holds it.
taken-Held : (s : ℕ) (k : Kernel) → Free s k → Held s (taken s k)
unfolding enqueue_resqel
taken-Held s k h = rw (taken-held_by s k) (record {
  valid = rw (==_self s) h.valid;
  level = rw (==_self s) h.level;
  owner = rw (==_self s) refl;
  alone = rw (==_self s) h.alone;
})

back-Free :
    (s : ℕ) (k : Kernel)
    → Free s k
    → record (count_up (held_by k.current (k.sems s))) { owndby = nobody } ≡ k.sems s
unfolding count_up ◌-ℤ◌ ◌+ℤ◌
back-Free s k h =
    let m = k.sems s in
    ap₂ (λ c o. record m { count = c; owndby = o }) (ground (arith, h.count)) (sym h.owner)

given_back-taken :
    (s : ℕ) (k : Kernel) → Free s k → given_back s (taken s k) ≡ enqueue_resqel k.current k
unfolding given_back counted enqueue_resqel
given_back-taken s k h =
    rw (taken-held_by s k, ==_self s)
      (ap (enqueue_resqel k.current)
        (set_sem-set_sem s _ _ _ ∙ set_sem-set_sem s _ _ k ∙ set_sem-same s k _ (back-Free s k h)))

suspdepth-taken :
    (s : ℕ) (k : Kernel) → ((taken s k).tasks k.current).suspdepth ≡ (k.tasks k.current).suspdepth
unfolding enqueue_resqel
suspdepth-taken s k = rw (taken-held_by s k, ==_self k.current) refl

above : (t : ℤ) → ltb_ℤ (pos 0) t ≡ true → ltb_ℤ (pos 1) (t +ℤ pos 1) ≡ true
unfolding ◌+ℤ◌
above t e = ground (arith, e)

-- Taken and given back.
pub signal-taken :
    (rt_schedule : Kernel → Kernel) (rt_task_delete : ℕ → Kernel → Kernel) (s : ℕ) (k : Kernel)
    → Free s k
    → (k.tasks k.current).suspdepth ≡ pos 0
    → AtRest k.current k
    → rt_sem_signal rt_schedule rt_task_delete s (taken s k) ≡ some (pos 0, k)
unfolding taken take_over count_down enqueue_resqel
signal-taken rt_schedule rt_task_delete s k h d p =
    let c = k.current in
    let back : dequeue_resqel_reset_task_priority c (given_back s (taken s k)) ≡ (false, k) =
      ap (dequeue_resqel_reset_task_priority c) (given_back-taken s k h)
      ∙ dequeue_resqel-enqueue_resqel c k p in
    rt_sem_signal-Held rt_schedule rt_task_delete s (taken s k) (taken-Held s k h)
      (suspdepth-taken s k ∙ d) (ap (λ x. x.0) back)
    ∙ ap (λ x. some (pos 0, x.1)) back

-- One level down and one up again.
pub signal-deeper :
    (rt_schedule : Kernel → Kernel) (rt_task_delete : ℕ → Kernel → Kernel) (s : ℕ) (k : Kernel)
    → Nested s k
    → rt_sem_signal rt_schedule rt_task_delete s (deeper s k) ≡ some (pos 0, k)
unfolding deeper
signal-deeper rt_schedule rt_task_delete s k h =
    let m = k.sems s in
    let up : ltb_ℤ (pos 1) (m.type +ℤ pos 1) ≡ true = above m.type h.level in
    rt_sem_signal-deeper rt_schedule rt_task_delete s (deeper s k) (rw (==_self s) h.valid)
      (rw (==_self s) up) (rw (==_self s) h.owner)
    ∙ ap (λ x. some (pos 0, x))
        (set_sem-set_sem s _ _ k
          ∙ set_sem-same s k _
              (rw (==_self s) (ap (λ t. record m { type = t }) (+ℤ_cancel m.type (pos 1)))))
