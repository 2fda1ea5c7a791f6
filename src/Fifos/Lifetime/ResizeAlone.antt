-- ===== src/Fifos/Lifetime/ResizeAlone.antt =====
-- rtf_resize of a fifo that nobody else uses.
use rtai.Base.{
  ℕ, suc, ◌+◌, ◌≤◌, ◌<◌, ◌≡◌, refl, ap, sym, subst, ◌∙◌, List, arith, length, Bool, true, false,
  Bool-cases, inl, inr, not, ◌==◌, ltb, Option, none, some, if◌then◌else◌, ==_self,
}
use rtai.Base.Int.{ℤ, pos}
use rtai.Mbx.Ring.{Ring}
use rtai.Mbx.Ring.Wrap.{IsBuffer}
use rtai.Fifos.State.{Fifos, snd_of, rcv_of, get_sem}
use rtai.Fifos.State.Frames.{ring-set_sem, snd-set_rcv}
use rtai.Fifos.Block.{set_free}
use rtai.Fifos.Block.Frames.{mbx_sem_wait-free, mbx_sem_wait_if-free}
use rtai.Fifos.Transfer.{release_snd, release_rcv, set_ring}
use rtai.Fifos.Transfer.Stores.{ring_of, ring-set_ring, ring-release_snd}
use rtai.Fifos.Transfer.Fetches.{ring-release_rcv}
use rtai.Fifos.Service.{valid_fifo, ebusy}
use rtai.Fifos.Lifetime.{
  refilled, rtf_resize, resize_with, resize_held, too_small, install, keep_senders_away, new_buffer,
}
use rtai.Fifos.Lifetime.Resize.{resized, Resized, resized-Resized}

-- both semaphores taken
abbrev alone : ℕ → Fifos → Fifos
alone i s = set_free 0 (snd_of i) (set_free 0 (rcv_of i) s)

-- The result, by whether the bytes that the fifo holds fit in the new buffer.
pub Outcome : (i size : ℕ) → Fifos → ℤ × Fifos → Type 0
Outcome i size s r =
    if ltb size (ring_of i s).avbs
    then (r.0 ≡ ebusy) × (ring_of i r.1 ≡ ring_of i s)
    else (r.0 ≡ pos size) × Resized (ring_of i s) (ring_of i r.1) size

Outcome-same :
    (i size : ℕ) (s t : Fifos) (r : ℤ × Fifos)
    → ring_of i s ≡ ring_of i t
    → Outcome i size s r
    → Outcome i size t r
unfolding Outcome
Outcome-same i size s t r h p =
    subst
      (λ x.
        if ltb size x.avbs
        then (r.0 ≡ ebusy) × (ring_of i r.1 ≡ x)
        else (r.0 ≡ pos size) × Resized x (ring_of i r.1) size)
      h p

ring-install :
    (i size : ℕ) (newbuf : List ℕ) (s : Fifos)
    → ring_of i (install i size newbuf s) ≡ refilled (ring_of i s) newbuf size
unfolding install
ring-install i size newbuf s = rw (ring_of, ==_self i) refl

abbrev with_size : ℕ → Ring → Ring
with_size size r = record r { size = size }

-- the fifo with the new buffer, and its size
abbrev installed : ℕ → ℕ → List ℕ → Fifos → Fifos
installed i size newbuf s =
    let r = install i size newbuf s in set_ring i (record (ring_of i r) { size = size }) r

ring-installed :
    (i size : ℕ) (newbuf : List ℕ) (s : Fifos)
    → ring_of i (release_rcv i (release_snd i (installed i size newbuf s)))
      ≡ resized (ring_of i s) newbuf size
ring-installed i size newbuf s =
    ring-release_rcv i (release_snd i (installed i size newbuf s))
    ∙ ring-release_snd i (installed i size newbuf s)
    ∙ ring-set_ring i _ (install i size newbuf s)
    ∙ ap (with_size size) (ring-install i size newbuf s)

resize_held-Outcome :
    (i size : ℕ) (newbuf : List ℕ) (s : Fifos)
    → IsBuffer (ring_of i s)
    → 0 < size
    → size ≤ length newbuf
    → Outcome i size s (resize_held i size newbuf (true, s))
unfolding resize_held Outcome too_small
resize_held-Outcome i size newbuf s b some_size long =
    elim (Bool-cases (ltb size (ring_of i s).avbs)) [
      | inl small ↦
          rw (small, resize_held)
            (refl, ring-release_rcv i (release_snd i s) ∙ ring-release_snd i s)
      | inr fits ↦
          let p = resized-Resized (ring_of i s) newbuf size b some_size (ground arith) long in
          rw (fits, resize_held)
            (
              refl,
              subst (λ u. Resized (ring_of i s) u size) (sym (ring-installed i size newbuf s)) p,
            )
    ]

module _ (schedule : Fifos → Bool × Fifos) (schedule_timeout : ℕ → Fifos → Bool × Fifos)
    (kmalloc vmalloc : ℕ → Option (List ℕ)) where
  keep_senders_away-free :
      (fuel i : ℕ) (s : Fifos)
      → not ((get_sem (snd_of i) s).free == 0) ≡ true
      → keep_senders_away schedule_timeout (suc fuel) i s ≡ some (true, set_free 0 (snd_of i) s)
  unfolding keep_senders_away
  keep_senders_away-free fuel i s h =
      let e = mbx_sem_wait_if-free (snd_of i) s h in
      rw (e, keep_senders_away) (ap (λ w. some (true, w.1)) e)

  resize_with-alone :
      (fuel i size : ℕ) (newbuf : List ℕ) (s : Fifos)
      → not ((get_sem (snd_of i) s).free == 0) ≡ true
      → not ((get_sem (rcv_of i) s).free == 0) ≡ true
      → resize_with schedule schedule_timeout kmalloc vmalloc (suc fuel) i size newbuf s
        ≡ some (resize_held i size newbuf (true, alone i s))
  unfolding resize_with
  resize_with-alone fuel i size newbuf s snd rcv =
      let held =
        keep_senders_away-free fuel i (set_free 0 (rcv_of i) s)
          (ap (λ x. not (x.free == 0)) (snd-set_rcv i _ s) ∙ snd) in
      let e = mbx_sem_wait-free schedule (rcv_of i) s rcv in
      let e' = ap (λ w. w.1) e in rw (e, e', held, resize_with) refl

  -- rtf_resize of an open fifo whose buffer is in order and that nobody else uses, to a size that is
  -- not 0 and for which there is memory, with one round for the loop that waits for senders: it
  -- returns, with EBUSY and the buffer as it was if the size is less than the number of bytes that the
  -- fifo holds; and else with the size, a buffer in order of that size, and the same contents.
  pub rtf_resize-alone :
      (fuel i size : ℕ) (newbuf : List ℕ) (s : Fifos)
      → valid_fifo i s ≡ none
      → IsBuffer (ring_of i s)
      → 0 < size
      → new_buffer kmalloc vmalloc size ≡ some newbuf
      → size ≤ length newbuf
      → not ((s.fifo i).sndsem.free == 0) ≡ true
      → not ((s.fifo i).rcvsem.free == 0) ≡ true
      → (r : ℤ × Fifos) × (rtf_resize schedule schedule_timeout kmalloc vmalloc (suc fuel) i size s
          ≡ some r)
        × Outcome i size s r
  unfolding rtf_resize get_sem
  rtf_resize-alone fuel i size newbuf s valid b some_size memory long snd rcv =
      let t : Fifos = record s { live = s.live + 1 } in
      let zero : (size == 0) ≡ false = ground arith in
      let same : ring_of i (alone i t) ≡ ring_of i s =
        ring-set_sem (snd_of i) _ (set_free 0 (rcv_of i) t) i ∙ ring-set_sem (rcv_of i) _ t i in
      let p =
        resize_held-Outcome i size newbuf (alone i t) (subst IsBuffer (sym same) b) some_size
          long in
      (
        resize_held i size newbuf (true, alone i t),
        rw (valid, zero, memory, rtf_resize) (resize_with-alone fuel i size newbuf t snd rcv),
        Outcome-same i size (alone i t) s _ same p,
      )
