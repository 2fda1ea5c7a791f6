-- ===== src/Fifos/Block/Wakes.antt =====
-- What a wait for room or for bytes finds when it has ended well.
use rtai.Base.{
  ◌∙◌, ℕ, ◌<◌, ◌≡◌, refl, arith, Bool, true, not, ◌==◌, Bool-cases, Option-cases, ==_self, sym,
  subst, inl, inr, some,
}
use rtai.Base.Int.{ℤ, pos, eq_ℤ, eq_of_parts}
use rtai.Mbx.Ring.{Ring}
use rtai.Mbx.Ring.Wrap.{IsBuffer}
use rtai.Fifos.State.{Fifos, SemOf, get_sem}
use rtai.Fifos.State.Frames.{field-set_fifo, ring-set_sem}
use rtai.Fifos.Block.{
  mbx_wait, mbx_sem_wait, stop_waiting, set_waiting, sleep_on, enqueue_blocked, dequeue_blocked,
  give_up,
}
use rtai.Fifos.Block.Frames.{List-cases}

-- What the rest of the system does for a process that waits for one of the two counters of fifo i:
-- the buffer stays in order, and mbx->waiting_task is taken away only when the counter is not 0.
pub record WakesWell (schedule : Fifos → Bool × Fifos) (fravbs : Ring → ℕ) (i : ℕ) : Type 0 where
  pub buffer : (s : Fifos) → IsBuffer (s.fifo i).ring → IsBuffer ((schedule s).1.fifo i).ring
  pub counted :
      (t : ℕ) (s : Fifos)
      → (s.fifo i).waiting_task ≡ some t
      → (stop_waiting t i (schedule s).1).0 ≡ pos 0
      → 0 < fravbs ((schedule s).1.fifo i).ring

-- What the caller goes on with.
abbrev pub Served : (Ring → ℕ) → ℕ → ℤ × Fifos → Type 0
Served fravbs i w =
    eq_ℤ w.0 (pos 0) ≡ true → IsBuffer (w.1.fifo i).ring × (0 < fravbs (w.1.fifo i).ring)

eq_ℤ→eq : (a b : ℤ) → eq_ℤ a b ≡ true → a ≡ b
eq_ℤ→eq a b h = eq_of_parts a b (ground arith)

stop_waiting-served :
    (t i : ℕ) (s : Fifos) → (stop_waiting t i s).0 ≡ pos 0 → (stop_waiting t i s).1 ≡ s
unfolding stop_waiting
stop_waiting-served t i s = elim (Option-cases (s.fifo i).waiting_task) [
  | inl e ↦ rw (e, stop_waiting) (λ h. refl)
  | inr (w, e) ↦ elim (Bool-cases (w == t)) [
    | inl mine ↦ rw (e, mine, stop_waiting) (λ h. absurd (cc))
    | inr other ↦ rw (e, other, stop_waiting) (λ h. refl)
  ]
]

pub mbx_wait-Served :
    (schedule : Fifos → Bool × Fifos) (fravbs : Ring → ℕ) (i : ℕ) (s : Fifos)
    → WakesWell schedule fravbs i
    → IsBuffer (s.fifo i).ring
    → Served fravbs i (mbx_wait schedule fravbs i s)
unfolding mbx_wait
mbx_wait-Served schedule fravbs i s wakes b =
    let asleep = set_waiting i (some s.current) s in
    elim (Bool-cases (not (fravbs (s.fifo i).ring == 0))) [
      | inl e ↦ rw (e, mbx_wait) (λ h. (b, ground arith))
      | inr e ↦ elim (Bool-cases (schedule asleep).0) [
        | inl signal ↦ rw (e, signal, mbx_wait) (λ h. absurd (cc))
        | inr none_pending ↦
            rw (e, none_pending, mbx_wait)
              (λ h.
                let ended : (stop_waiting s.current i (schedule asleep).1).0 ≡ pos 0 =
                  eq_ℤ→eq _ _ h in
                let same = stop_waiting-served s.current i (schedule asleep).1 ended in
                let waits : (asleep.fifo i).waiting_task ≡ some s.current = rw (==_self i) refl in
                let ring =
                  field-set_fifo (λ x. x.ring) (record (s.fifo i) { waiting_task = some s.current })
                    s i i refl in
                subst (λ r. IsBuffer (r.fifo i).ring × (0 < fravbs (r.fifo i).ring)) (sym same)
                  (
                    wakes.buffer asleep (subst IsBuffer (sym ring) b),
                    wakes.counted s.current asleep waits ended,
                  ))
      ]
    ]

ring-sleep_on : (at : SemOf) (s : Fifos) (i : ℕ) → ((sleep_on at s).fifo i).ring ≡ (s.fifo i).ring
unfolding sleep_on enqueue_blocked
ring-sleep_on at s i = ring-set_sem at _ s i

ring-dequeue_blocked :
    (t : ℕ) (at : SemOf) (s : Fifos) (i : ℕ)
    → ((dequeue_blocked t at s).fifo i).ring ≡ (s.fifo i).ring
unfolding dequeue_blocked
ring-dequeue_blocked t at s i = ring-set_sem at _ s i

ring-give_up :
    (t : ℕ) (at : SemOf) (s : Fifos) (i : ℕ) → ((give_up t at s).fifo i).ring ≡ (s.fifo i).ring
unfolding give_up
ring-give_up t at s i = elim (List-cases (get_sem at (dequeue_blocked t at s)).queue) [
  | inl e ↦
      rw (e, give_up) (ring-set_sem at _ (dequeue_blocked t at s) i ∙ ring-dequeue_blocked t at s i)
  | inr (u, q, e) ↦ rw (e, give_up) (ring-dequeue_blocked t at s i)
]

-- A wait for a semaphore leaves the buffer in order.
pub mbx_sem_wait-IsBuffer :
    (schedule : Fifos → Bool × Fifos) (fravbs : Ring → ℕ) (i : ℕ) (at : SemOf) (s : Fifos)
    → WakesWell schedule fravbs i
    → IsBuffer (s.fifo i).ring
    → IsBuffer ((mbx_sem_wait schedule at s).1.fifo i).ring
unfolding mbx_sem_wait
mbx_sem_wait-IsBuffer schedule fravbs i at s wakes b =
    let r = (schedule (sleep_on at s)).1 in
    let after = wakes.buffer (sleep_on at s) (subst IsBuffer (sym (ring-sleep_on at s i)) b) in
    elim (Bool-cases (not ((get_sem at s).free == 0))) [
      | inl e ↦ rw (e, mbx_sem_wait) (subst IsBuffer (sym (ring-set_sem at _ s i)) b)
      | inr e ↦ elim (Bool-cases (r.lx s.current).blocked) [
        | inl linked ↦
            rw (e, linked, mbx_sem_wait)
              (subst IsBuffer (sym (ring-give_up s.current at r i)) after)
        | inr handed_over ↦ rw (e, handed_over, mbx_sem_wait) after
      ]
    ]
