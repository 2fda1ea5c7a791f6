-- ===== src/Fifos/Block/Frames.antt =====
-- Signals leave the buffers of the fifos as they are.
use rtai.Base.{
  ℕ, ◌≡◌, refl, ◌∙◌, [], ◌∷◌, List, Bool, Option, none, some, Bool-cases, Option-cases, inl, inr,
  ◌==◌, ◌⊎◌, not, ◌&&◌, ◌||◌, true,
}
use rtai.Base.Int.{pos}
use rtai.Fifos.State.{Fifo, FSem, Fifo, Fifos, SemOf, get_sem}
use rtai.Fifos.State.Frames.{ring-set_sem, field-set_fifo, field-set_sem}
use rtai.Fifos.Block.{
  mbx_sem_init, mbx_sem_wait, mbx_sem_wait_if, mbx_sem_signal, mbx_signal, pend_poll, pend_poll_of,
  dequeue_blocked, set_free,
}

ring-pend_poll : (j : ℕ) (s : Fifos) (i : ℕ) → ((pend_poll j s).fifo i).ring ≡ (s.fifo i).ring
unfolding pend_poll
ring-pend_poll j s i =
    let x = s.fifo j in
    elim (Bool-cases (
      not x.pol_asyn_pended
      && (not (x.ring.avbs == 0) || not (x.ring.frbs == 0))
      && (x.pollq || x.asynq))) [
        | inl e ↦
            rw e (field-set_fifo (λ y. y.ring) (record x { pol_asyn_pended = true }) s j i refl)
        | inr e ↦ rw e refl
      ]

ring-pend_poll_of :
    (f : Option ℕ) (s : Fifos) (i : ℕ) → ((pend_poll_of f s).fifo i).ring ≡ (s.fifo i).ring
unfolding pend_poll_of
ring-pend_poll_of none s i = refl
ring-pend_poll_of (some j) s i = ring-pend_poll j s i

pub List-cases : (xs : List ℕ) → (xs ≡ []) ⊎ ((x : ℕ) × (ys : List ℕ) × (xs ≡ x ∷ ys))
List-cases [] = inl refl
List-cases (x ∷ xs) = inr (x, xs, refl)

pub ring-mbx_sem_signal :
    (at : SemOf) (f : Option ℕ) (s : Fifos) (i : ℕ)
    → ((mbx_sem_signal at f s).fifo i).ring ≡ (s.fifo i).ring
unfolding mbx_sem_signal dequeue_blocked
ring-mbx_sem_signal at f s i = elim (List-cases (get_sem at s).queue) [
  | inl e ↦ rw (e, mbx_sem_signal) (ring-pend_poll_of f (set_free 1 at s) i ∙ ring-set_sem at _ s i)
  | inr (t, q, e) ↦ rw (e, mbx_sem_signal) (ring-set_sem at _ s i)
]

pub ring-mbx_signal : (j : ℕ) (s : Fifos) (i : ℕ) → ((mbx_signal j s).fifo i).ring ≡ (s.fifo i).ring
unfolding mbx_signal
ring-mbx_signal j s i = elim (Option-cases (s.fifo j).waiting_task) [
  | inl e ↦ rw (e, mbx_signal) refl
  | inr (t, e) ↦
      rw (e, mbx_signal)
        (field-set_fifo (λ y. y.ring) (record (s.fifo j) { waiting_task = none }) s j i refl)
]

-- A semaphore that is free is taken at once.
pub mbx_sem_wait-free :
    (schedule : Fifos → Bool × Fifos) (at : SemOf) (s : Fifos)
    → not ((get_sem at s).free == 0) ≡ true
    → mbx_sem_wait schedule at s ≡ (pos 0, set_free 0 at s)
unfolding mbx_sem_wait
mbx_sem_wait-free schedule at s h = rw (h, mbx_sem_wait) refl

pub mbx_sem_wait_if-free :
    (at : SemOf) (s : Fifos)
    → not ((get_sem at s).free == 0) ≡ true
    → mbx_sem_wait_if at s ≡ (true, set_free 0 at s)
unfolding mbx_sem_wait_if
mbx_sem_wait_if-free at s h = rw (h, mbx_sem_wait_if) refl

pub field-mbx_sem_init {ℓ} :
    {A : Type ℓ} (f : Fifo → A)
    → ((x : Fifo) (y : FSem) → f (record x { sndsem = y }) ≡ f x)
    → ((x : Fifo) (y : FSem) → f (record x { rcvsem = y }) ≡ f x)
    → ((x : Fifo) (y : FSem) → f (record x { sem = y }) ≡ f x)
    → (at : SemOf) (value : ℕ) (s : Fifos) (i : ℕ)
    → f ((mbx_sem_init at value s).fifo i) ≡ f (s.fifo i)
unfolding mbx_sem_init
field-mbx_sem_init f p q r at value s i = field-set_sem f p q r at _ s i
