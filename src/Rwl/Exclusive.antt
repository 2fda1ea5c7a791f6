-- ===== src/Rwl/Exclusive.antt =====
-- Readers and a writer never have the lock at the same time.
use rtai.Base.{
  ℕ, ◌≡◌, refl, ap, ◌∙◌, arith, Bool, true, false, Bool-cases, ◌||◌, leb, ◌⊎◌, inl, inr, ◌==◌,
  Option, none, some, if◌then◌else◌,
}
use rtai.Base.Int.{ℤ}
use rtai.Kernel.{Kernel, Owner, nobody, task, number}
use rtai.Sched.{priority_of}
use rtai.Sem.{owned_by}
use rtai.Sem.Frames.{owned_by-nobody}
use rtai.Sem.Elsewhere.{Elsewhere}
use rtai.Sem.Signal.{rt_sem_signal}
use rtai.Sem.Signal.Balance.{Returns, NotDeleted}
use rtai.Sem.Signal.Elsewhere.{rt_sem_signal-Returns, rt_sem_broadcast-Keeps, NotDeleted-Elsewhere}
use rtai.Sem.Wait.Elsewhere.{rt_sem_wait_if-Elsewhere}
use rtai.Rwl.{
  Rwl, is_owned, readers_wait, first_in, drop_reader, rt_rwl_rdlock_if, rt_rwl_wrlock_if,
  rt_rwl_unlock, hand_on, signal, broadcast, done,
}

-- The three semaphores of a lock are different ones.
pub record Apart (l : Rwl) : Type 0 where
  pub mtx_wr : (l.wrmtx == l.wrsem) ≡ false
  pub mtx_rd : (l.wrmtx == l.rdsem) ≡ false
  pub wr_rd : (l.wrsem == l.rdsem) ≡ false

abbrev is_written : Rwl → Kernel → Bool
is_written l k = is_owned (k.sems l.wrmtx).owndby

abbrev is_read : Rwl → Kernel → Bool
is_read l k = is_owned (k.sems l.rdsem).owndby

-- No writer has the lock, or no reader; and the running task is not to be deleted.
pub record Exclusive (l : Rwl) (k : Kernel) : Type 0 where
  pub one_side : (is_written l k ≡ false) ⊎ (is_read l k ≡ false)
  pub not_deleted : NotDeleted k

-- A service that returns a state of which P holds.
abbrev pub Gives : (Kernel → Type 0) → Option Kernel → Type 0
Gives P none = ⊥
Gives P (some k) = P k

not_owned : (o : Owner) → is_owned o ≡ false → o ≡ nobody
unfolding is_owned
not_owned nobody e = refl
not_owned (task t) e = cc
not_owned (number n) e = cc

owned_by-written :
    (l : Rwl) (c : ℕ) (k : Kernel) → owned_by (k.sems l.wrmtx) c ≡ true → is_written l k ≡ true
owned_by-written l c k e = elim (Bool-cases (is_written l k)) [
  | inl w ↦ w
  | inr w ↦ let f = owned_by-nobody (k.sems l.wrmtx) c (not_owned _ w) in cc
]

-- A semaphore that is not s has the owner that it had.
owner-Elsewhere :
    {s : ℕ} (j : ℕ) {k k' : Kernel}
    → Elsewhere s k k'
    → (s == j) ≡ false
    → is_owned (k.sems j).owndby ≡ false
    → is_owned (k'.sems j).owndby ≡ false
owner-Elsewhere j e d f = ap (λ m. is_owned m.owndby) (e.others j d) ∙ f

signal-Gives :
    (rt_schedule : Kernel → Kernel) (rt_task_delete : ℕ → Kernel → Kernel) (P : Kernel → Type 0)
    (s : ℕ) (k : Kernel)
    → Returns P (rt_sem_signal rt_schedule rt_task_delete s k)
    → Gives P (signal rt_schedule rt_task_delete s k)
signal-Gives sch del P s k r = go (rt_sem_signal sch del s k) r
  where
    go :
        (x : Option (ℤ × Kernel))
        → Returns P x
        → Gives P (elim x [ none ↦ none | some y ↦ some y.1 ])
    go none r = r
    go (some y) r = r

module _ (l : Rwl) (apart : Apart l) (rt_schedule : Kernel → Kernel)
    (rt_task_delete : ℕ → Kernel → Kernel)
    (env : (k : Kernel) → Exclusive l k → Exclusive l (rt_schedule k)) where
  signal_wrsem-Exclusive :
      (k : Kernel)
      → Exclusive l k
      → is_written l k ≡ false
      → Gives (Exclusive l) (signal rt_schedule rt_task_delete l.wrsem k)
  signal_wrsem-Exclusive k e f = signal-Gives rt_schedule rt_task_delete (Exclusive l) l.wrsem k (
      rt_sem_signal-Returns rt_schedule rt_task_delete (Exclusive l) env l.wrsem k
        (λ k' g. record {
          one_side = inl (owner-Elsewhere l.wrmtx g (ground (arith, apart.mtx_wr)) f);
          not_deleted = NotDeleted-Elsewhere g e.not_deleted;
        })
        e.not_deleted)

  broadcast_rdsem-Exclusive :
      (k : Kernel)
      → Exclusive l k
      → is_written l k ≡ false
      → Exclusive l (broadcast rt_schedule rt_task_delete l.rdsem k)
  broadcast_rdsem-Exclusive k e f =
      rt_sem_broadcast-Keeps rt_schedule rt_task_delete (Exclusive l) env l.rdsem k (λ k' g.
        record {
          one_side = inl (owner-Elsewhere l.wrmtx g (ground (arith, apart.mtx_rd)) f);
          not_deleted = NotDeleted-Elsewhere g e.not_deleted;
        })

  hand_on-Exclusive :
      (k : Kernel) → Exclusive l k → Gives (Exclusive l) (hand_on rt_schedule rt_task_delete l k)
  unfolding hand_on
  hand_on-Exclusive k e = elim (Bool-cases (is_written l k || is_read l k)) [
    | inl f ↦ rw f e
    | inr f ↦
        let free : is_written l k ≡ false = ground (arith, f) in
        rw (f, hand_on) (go free (first_in l.wrsem k) (first_in l.rdsem k))
  ]
    where
      go :
          is_written l k ≡ false
          → (w r : Option ℕ)
          → Gives (Exclusive l) (elim w [
            | none ↦ elim r [
              | none ↦ some k
              | some t ↦ some (broadcast rt_schedule rt_task_delete l.rdsem k)
            ]
            | some u ↦ elim r [
              | none ↦ signal rt_schedule rt_task_delete l.wrsem k
              | some t ↦
                  if leb (priority_of k u) (priority_of k t)
                  then signal rt_schedule rt_task_delete l.wrsem k
                  else some (broadcast rt_schedule rt_task_delete l.rdsem k)
            ]
          ])
      go f none none = e
      go f none (some t) = broadcast_rdsem-Exclusive k e f
      go f (some u) none = signal_wrsem-Exclusive k e f
      go f (some u) (some t) = elim (Bool-cases (leb (priority_of k u) (priority_of k t))) [
        | inl g ↦ rw g (signal_wrsem-Exclusive k e f)
        | inr g ↦ rw g (broadcast_rdsem-Exclusive k e f)
      ]

  done-Exclusive :
      (x : Option Kernel)
      → Gives (Exclusive l) x
      → Returns (Exclusive l) (done rt_schedule rt_task_delete x)
  done-Exclusive none e = e
  done-Exclusive (some k) e = e

  unlocked-Exclusive :
      (x : Option Kernel)
      → Gives (Exclusive l) x
      → Returns (Exclusive l) (elim x [
        | none ↦ none
        | some k ↦ done rt_schedule rt_task_delete (hand_on rt_schedule rt_task_delete l k)
      ])
  unlocked-Exclusive none e = e
  unlocked-Exclusive (some k) e = done-Exclusive _ (hand_on-Exclusive k e)

  pub rt_rwl_unlock-Exclusive :
      (k : Kernel)
      → Exclusive l k
      → Returns (Exclusive l) (rt_rwl_unlock rt_schedule rt_task_delete l k)
  unfolding rt_rwl_unlock
  rt_rwl_unlock-Exclusive k e = elim (Bool-cases (owned_by (k.sems l.wrmtx) k.current)) [
    | inl f ↦
        let unread : is_read l k ≡ false = elim e.one_side [
          | inl w ↦ let o = owned_by-written l k.current k f in cc
          | inr r ↦ r
        ] in
        rw f (
          unlocked-Exclusive _ (
            signal-Gives rt_schedule rt_task_delete (Exclusive l) l.wrmtx k (
              rt_sem_signal-Returns rt_schedule rt_task_delete (Exclusive l) env l.wrmtx k
                (λ k' g. record {
                  one_side = inr (owner-Elsewhere l.rdsem g apart.mtx_rd unread);
                  not_deleted = NotDeleted-Elsewhere g e.not_deleted;
                })
                e.not_deleted)))
    | inr f ↦ elim (Bool-cases (is_read l k)) [
      | inr g ↦ rw (f, g) e
      | inl g ↦
          let unwritten : is_written l k ≡ false = elim e.one_side [ inl w ↦ w | inr r ↦ cc ] in
          rw (f, g)
            (done-Exclusive _ (
              hand_on-Exclusive (drop_reader l k) (record {
                one_side = inl (ground (arith, unwritten, apart.mtx_rd));
                not_deleted = e.not_deleted;
              })))
    ]
  ]

module _ (l : Rwl) (apart : Apart l) (ntasks : ℕ) (rt_schedule : Kernel → Kernel)
    (get_time : Kernel → ℕ) where
  pub rt_rwl_rdlock_if-Exclusive :
      (k : Kernel)
      → Exclusive l k
      → Exclusive l (rt_rwl_rdlock_if ntasks rt_schedule get_time l k).1
  unfolding rt_rwl_rdlock_if readers_wait
  rt_rwl_rdlock_if-Exclusive k e = elim (Bool-cases (readers_wait l k.current k)) [
    | inl f ↦ rw f e
    | inr f ↦
        let unwritten : is_written l k ≡ false = ground (arith, f) in
        rw f (record {
          one_side = inl (ground (arith, unwritten, apart.mtx_rd));
          not_deleted = e.not_deleted;
        })
  ]

  pub rt_rwl_wrlock_if-Exclusive :
      (k : Kernel)
      → Exclusive l k
      → Exclusive l (rt_rwl_wrlock_if ntasks rt_schedule get_time l k).1
  unfolding rt_rwl_wrlock_if
  rt_rwl_wrlock_if-Exclusive k e = elim (Bool-cases (is_read l k)) [
    | inl f ↦ rw f e
    | inr f ↦
        let g = rt_sem_wait_if-Elsewhere ntasks rt_schedule l.wrmtx k in
        rw f (record {
          one_side = inr (owner-Elsewhere l.rdsem g apart.mtx_rd f);
          not_deleted = NotDeleted-Elsewhere g e.not_deleted;
        })
  ]
