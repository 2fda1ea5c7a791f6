-- ===== src/Rwl/Wakes.antt =====
-- Who goes on when a lock of readers and writers is given back (src/ipc/sem/sem.c).
use rtai.Base.{
  ℕ, ◌≡◌, ◌≤◌, refl, ap, ap₂, sym, ◌∙◌, List, ◌∷◌, arith, true, false, ◌||◌, leb, ◌==◌, Option,
  none, some, if_true, if_false, if◌then◌else◌, ==_self,
}
use rtai.Base.Int.{pos}
use rtai.Kernel.{Kernel, number}
use rtai.Sched.{priority_of}
use rtai.Sem.{owned_by, head?}
use rtai.Sem.Signal.Wakes.{Waiting, MadeReady, rt_sem_signal-MadeReady}
use rtai.Rwl.{
  Rwl, is_owned, one_less, first_in, drop_reader, signal, broadcast, hand_on, done, rt_rwl_unlock,
}
use rtai.Rwl.Exclusive.{Apart}

-- The running task is the last reader, no writer has the lock, the writer w is the first that waits
-- for it, and no reader of a higher priority is the first of the readers that wait.
pub record LastReader (l : Rwl) (w : ℕ) (ws : List ℕ) (k : Kernel) : Type 0 where
  pub not_mine : owned_by (k.sems l.wrmtx) k.current ≡ false
  pub unwritten : is_owned (k.sems l.wrmtx).owndby ≡ false
  pub readers : (k.sems l.rdsem).owndby ≡ number 1
  pub valid : (k.sems l.wrsem).magic ≡ true
  pub counting : (k.sems l.wrsem).type ≡ pos 0
  pub queue : (k.sems l.wrsem).queue ≡ w ∷ ws
  pub waits : Waiting w k
  pub first : (r : ℕ) → first_in l.rdsem k ≡ some r → priority_of k w ≤ priority_of k r

module _ (rt_schedule : Kernel → Kernel) (rt_task_delete : ℕ → Kernel → Kernel) where
  hand_on-writer :
      (l : Rwl) (w : ℕ) (k : Kernel)
      → (is_owned (k.sems l.wrmtx).owndby || is_owned (k.sems l.rdsem).owndby) ≡ false
      → first_in l.wrsem k ≡ some w
      → ((r : ℕ) → first_in l.rdsem k ≡ some r → priority_of k w ≤ priority_of k r)
      → hand_on rt_schedule rt_task_delete l k ≡ signal rt_schedule rt_task_delete l.wrsem k
  unfolding hand_on
  hand_on-writer l w k free writer first =
      if_false _ _ free
      ∙ ap
          (λ x. elim x as (λ z. Option Kernel) [
            | none ↦ elim (first_in l.rdsem k) as (λ z. Option Kernel) [
              | none ↦ some k
              | some r ↦ some (broadcast rt_schedule rt_task_delete l.rdsem k)
            ]
            | some u ↦ elim (first_in l.rdsem k) as (λ z. Option Kernel) [
              | none ↦ signal rt_schedule rt_task_delete l.wrsem k
              | some r ↦
                  if leb (priority_of k u) (priority_of k r)
                  then signal rt_schedule rt_task_delete l.wrsem k
                  else some (broadcast rt_schedule rt_task_delete l.rdsem k)
            ]
          ])
          writer
      ∙ go (first_in l.rdsem k) refl
    where
      go :
          (x : Option ℕ)
          → first_in l.rdsem k ≡ x
          → elim x as (λ z. Option Kernel) [
            | none ↦ signal rt_schedule rt_task_delete l.wrsem k
            | some r ↦
                if leb (priority_of k w) (priority_of k r)
                then signal rt_schedule rt_task_delete l.wrsem k
                else some (broadcast rt_schedule rt_task_delete l.rdsem k)
          ]
            ≡ signal rt_schedule rt_task_delete l.wrsem k
      go none e = refl
      go (some r) e =
          if_true {b = leb (priority_of k w) (priority_of k r)} _ _ (ground (arith, first r e))

  -- When the last reader gives the lock back, where a writer waits for it whose priority is at least
  -- that of the first waiting reader, rt_rwl_unlock succeeds: it hands to rt_schedule() a state in
  -- which the first writer has left the queue, is ready, and stands in the ready list by its priority.
  pub rt_rwl_unlock-MadeReady :
      (l : Rwl) (w : ℕ) (ws : List ℕ) (k : Kernel)
      → Apart l
      → LastReader l w ws k
      → (k' : Kernel) × (rt_rwl_unlock rt_schedule rt_task_delete l k
          ≡ some (pos 0, rt_schedule k'))
        × MadeReady w l.wrsem ws k k'
  unfolding rt_rwl_unlock is_owned one_less head?
  rt_rwl_unlock-MadeReady l w ws k apart h =
      let d = drop_reader l k in
      let elsewhere : d.sems l.wrsem ≡ k.sems l.wrsem =
        if_false {b = l.rdsem == l.wrsem} _ _ (ground (arith, apart.wr_rd)) in
      let mutex : d.sems l.wrmtx ≡ k.sems l.wrmtx =
        if_false {b = l.rdsem == l.wrmtx} _ _ (ground (arith, apart.mtx_rd)) in
      let here : d.sems l.rdsem
          ≡ record (k.sems l.rdsem) { owndby = one_less (k.sems l.rdsem).owndby } =
        if_true _ _ (==_self l.rdsem) in
      let waits : Waiting w d = record {
        waits = h.waits.waits;
        no_more = h.waits.no_more;
        hard = h.waits.hard;
      } in
      let r =
        rt_sem_signal-MadeReady rt_schedule rt_task_delete w l.wrsem ws d
          (ap (λ m. m.magic) elsewhere ∙ h.valid) (ap (λ m. m.type) elsewhere ∙ h.counting)
          (ap (λ m. m.queue) elsewhere ∙ h.queue) waits in
      let free : (is_owned (d.sems l.wrmtx).owndby || is_owned (d.sems l.rdsem).owndby) ≡ false =
        ap₂ (λ a b. a || b) (ap (λ m. is_owned m.owndby) mutex ∙ h.unwritten)
          (ap (λ m. is_owned m.owndby) here ∙ ap (λ o. is_owned (one_less o)) h.readers) in
      (
        r.0,
        if_false _ _ h.not_mine
            ∙ if_true _ _ (ap is_owned h.readers)
            ∙ ap (done rt_schedule rt_task_delete) (
                hand_on-writer l w d free (ap (λ m. head? m.queue) elsewhere ∙ ap head? h.queue)
                  (λ t e. h.first t (sym (ap (λ m. head? m.queue) here) ∙ e)))
            ∙ ap
                (λ x.
                  done rt_schedule rt_task_delete
                    (elim x as (λ z. Option Kernel) [ none ↦ none | some y ↦ some y.1 ]))
                r.1,
        record { queue = r.2.queue; state = r.2.state; ready = r.2.ready },
      )
