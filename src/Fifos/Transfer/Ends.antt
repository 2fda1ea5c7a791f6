-- ===== src/Fifos/Transfer/Ends.antt =====
-- The sends and receives that wait come to an end.
use rtai.Base.{
  ℕ, zero, suc, ◌≤◌, ◌≡◌, refl, sym, subst, List, arith, length, length-drop, drop, min, Bool, true,
  Bool-cases, inl, inr, ◌==◌, not, Option, some,
}
use rtai.Base.Int.{ℤ, pos, eq_ℤ}
use rtai.Mbx.Ring.{PutState}
use rtai.Mbx.Ring.Wrap.{IsBuffer, mbxput_loop-Put}
use rtai.Fifos.State.{Fifos, snd_of}
use rtai.Fifos.Block.{mbx_signal, mbx_sem_wait, mbx_wait}
use rtai.Fifos.Block.Frames.{ring-mbx_signal}
use rtai.Fifos.Block.Wakes.{WakesWell, Served, mbx_wait-Served, mbx_sem_wait-IsBuffer}
use rtai.Fifos.Transfer.{mbx_put, send_loop, mbx_send, release_snd, frbs_of}
use rtai.Fifos.Transfer.Stores.{ring_of, mbx_put-Sent}

msg-mbx_put :
    (i : ℕ) (msg : List ℕ) (n : ℕ) (s : Fifos)
    → IsBuffer (ring_of i s)
    → n ≤ length msg
    → ((mbx_put i msg n s).0).0 ≡ drop (min n (ring_of i s).frbs) msg
unfolding mbx_put
msg-mbx_put i msg n s b h =
    let start : PutState = record { ring = ring_of i s; msg = msg; msg_size = n } in
    (mbxput_loop-Put n start b h (omega arith)).stored.rest

-- A result, in which no more than n bytes are left.
pub Returns : ℕ → Option (ℕ × Fifos) → Type 0
Returns n o = (left : ℕ) × (t : Fifos) × (o ≡ some (left, t)) × (left ≤ n)

send_loop-Returns :
    (wait : ℕ → Fifos → ℤ × Fifos) (i : ℕ)
    → ((s : Fifos) → IsBuffer (ring_of i s) → Served frbs_of i (wait i s))
    → (fuel : ℕ) (msg : List ℕ) (n : ℕ) (s : Fifos) → IsBuffer (ring_of i s)
    → n ≤ length msg
    → n ≤ fuel
    → Returns n (send_loop wait fuel i msg n s)
unfolding send_loop Returns
send_loop-Returns wait i served zero msg n s b l f =
    let e : (n == 0) ≡ true = ground arith in
    rw (e, send_loop) (0, release_snd i s, refl, omega arith)
send_loop-Returns wait i served (suc fuel) msg n s b l f = elim (Bool-cases (n == 0)) [
  | inl e ↦ rw (e, send_loop) (0, release_snd i s, refl, omega arith)
  | inr more ↦
      let w = wait i s in
      elim (Bool-cases (eq_ℤ w.0 (pos 0))) [
        | inr failed ↦ rw (more, failed, send_loop) (n, release_snd i w.1, refl, omega arith)
        | inl ok ↦
            let r = served s b ok in
            let p = mbx_put i msg n w.1 in
            let q = mbx_put-Sent i msg n w.1 r.0 l in
            let same = ring-mbx_signal i p.1 i in
            let rest =
              send_loop-Returns wait i served fuel (p.0).0 (p.0).1 (mbx_signal i p.1)
                (subst IsBuffer (sym same) q.buffer)
                (rw (msg-mbx_put i msg n w.1 r.0 l)
                  (omega (arith, q.rest, length-drop (min n (ring_of i w.1).frbs) msg)))
                (ground (arith, q.rest, r.1)) in
            rw (more, ok, send_loop) (rest.0, rest.1, rest.2, omega (arith, rest.3, q.rest))
      ]
]

-- mbx_send of n bytes to a fifo whose buffer is in order comes to an end within n rounds of its loop,
-- with at most n bytes left, if the rest of the system keeps the buffer in order, and takes away
-- mbx->waiting_task only when there is room: waits that are interrupted end it as well.
pub mbx_send-Returns :
    (schedule : Fifos → Bool × Fifos) (i : ℕ) (msg : List ℕ) (n : ℕ) (s : Fifos)
    → WakesWell schedule frbs_of i
    → IsBuffer (ring_of i s)
    → n ≤ length msg
    → Returns n (mbx_send schedule n i msg n s)
unfolding mbx_send Returns
mbx_send-Returns schedule i msg n s wakes b l =
    let w = mbx_sem_wait schedule (snd_of i) s in
    let c = mbx_sem_wait-IsBuffer schedule frbs_of i (snd_of i) s wakes b in
    elim (Bool-cases (not (eq_ℤ w.0 (pos 0)))) [
      | inl failed ↦ rw (failed, mbx_send) (n, w.1, refl, omega arith)
      | inr ok ↦
          rw (ok, mbx_send)
            (send_loop-Returns (mbx_wait schedule frbs_of) i
              (λ t d. mbx_wait-Served schedule frbs_of i t wakes d) n msg n w.1 c l (omega arith))
    ]
