-- ===== src/Fifos/Block/Timeout.antt =====
-- A wait for a semaphore that runs out.
use rtai.Base.{
  ℕ, ◌≡◌, refl, ap, ◌∙◌, [], ◌∷◌, true, false, not, ◌==◌, ==_self, if_true, Bool-cases, inl, inr,
}
use rtai.Base.Int.{negsuc}
use rtai.Kernel.{unlink}
use rtai.Fifos.State.{Fifos, LxTask, SemOf, snd_of, rcv_of, sem_of, get_sem, set_lx}
use rtai.Fifos.State.Frames.{get_sem-set_sem}
use rtai.Fifos.Block.{
  mbx_sem_wait_timed, mbx_sem_wait_if, sleep_on, give_up, enqueue_blocked, dequeue_blocked,
  place_blocked,
}

get_sem-set_lx :
    (at : SemOf) (t : ℕ) (x : LxTask) (s : Fifos) → get_sem at (set_lx t x s) ≡ get_sem at s
unfolding get_sem
get_sem-set_lx (snd_of i) t x s = refl
get_sem-set_lx (rcv_of i) t x s = refl
get_sem-set_lx (sem_of i) t x s = refl

queue-sleep_on :
    (at : SemOf) (s : Fifos)
    → (get_sem at s).queue ≡ []
    → (get_sem at (sleep_on at s)).queue ≡ s.current ∷ []
unfolding sleep_on enqueue_blocked place_blocked
queue-sleep_on at s h =
    let x = get_sem at s in
    ap (λ y. y.queue) (get_sem-set_lx at _ _ _ ∙ get_sem-set_sem at _ s)
    ∙ ap (place_blocked s.lx s.current x.qtype (s.rt_priority s.current)) h

blocked-sleep_on : (at : SemOf) (s : Fifos) → ((sleep_on at s).lx s.current).blocked ≡ true
unfolding sleep_on enqueue_blocked
blocked-sleep_on at s = rw (==_self s.current) refl

-- The only process of a queue takes itself off it, and frees the semaphore.
free-give_up :
    (t : ℕ) (at : SemOf) (s : Fifos)
    → (get_sem at s).queue ≡ t ∷ []
    → (get_sem at (give_up t at s)).free ≡ 1
unfolding give_up dequeue_blocked unlink
free-give_up t at s h =
    let empty : (get_sem at (dequeue_blocked t at s)).queue ≡ [] =
      ap (λ y. y.queue) (get_sem-set_lx at _ _ _ ∙ get_sem-set_sem at _ s)
      ∙ ap (unlink t) h
      ∙ if_true [] (t ∷ []) (==_self t) in
    rw (empty, give_up) (ap (λ y. y.free) (get_sem-set_sem at _ _))

wait_if-free : (at : SemOf) (s : Fifos) → (mbx_sem_wait_if at s).0 ≡ not ((get_sem at s).free == 0)
unfolding mbx_sem_wait_if
wait_if-free at s = elim (Bool-cases (not ((get_sem at s).free == 0))) [
  | inl e ↦ rw (e, mbx_sem_wait_if) refl
  | inr e ↦ rw (e, mbx_sem_wait_if) refl
]

-- mbx_sem_wait_timed on a semaphore that another process holds and that nobody waits for: when the
-- delay is over and nothing else has happened, the caller gets -1, and the semaphore can be taken,
-- as it could not be before, although it has not been released.
pub mbx_sem_wait_timed-frees :
    (at : SemOf) (delay : ℕ) (s : Fifos)
    → (get_sem at s).free ≡ 0
    → (get_sem at s).queue ≡ []
    → let r = mbx_sem_wait_timed (λ d t. (false, t)) at delay s in
      (r.0 ≡ negsuc 0) × ((mbx_sem_wait_if at s).0 ≡ false) × ((mbx_sem_wait_if at r.1).0 ≡ true)
unfolding mbx_sem_wait_timed
mbx_sem_wait_timed-frees at delay s held alone =
    let busy : not ((get_sem at s).free == 0) ≡ false = rw held refl in
    let f = free-give_up s.current at (sleep_on at s) (queue-sleep_on at s alone) in
    rw (busy, blocked-sleep_on at s, mbx_sem_wait_timed)
      (
        refl,
        wait_if-free at s ∙ busy,
        wait_if-free at (give_up s.current at (sleep_on at s)) ∙ ap (λ n. not (n == 0)) f,
      )
