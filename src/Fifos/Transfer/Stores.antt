-- ===== src/Fifos/Transfer/Stores.antt =====
-- What the sends and receives that do not wait do to the buffer of a fifo.
use rtai.Base.{
  ℕ, suc, ◌+◌, ◌≤◌, ◌≡◌, refl, ap, sym, subst, ◌∙◌, List, ◌++◌, arith, Bool-cases, inl, inr, length,
  take, min, ◌==◌, ==_self, not, if◌then◌else◌,
}
use mathlib.Core.List.{append-nil}
use rtai.Mbx.Ring.{Ring, mbxput_loop, PutState}
use rtai.Mbx.Ring.Window.{contents}
use rtai.Mbx.Ring.Wrap.{IsBuffer, mbxput_loop-Put, normal}
use rtai.Fifos.State.{Fifos, snd_of}
use rtai.Fifos.State.Frames.{ring-set_sem}
use rtai.Fifos.Block.{mbx_signal, set_free}
use rtai.Fifos.Block.Frames.{ring-mbx_sem_signal, ring-mbx_signal}
use rtai.Fifos.Transfer.{mbx_put, set_ring, send_now, release_snd, mbx_send_wp}

abbrev pub ring_of : ℕ → Fifos → Ring
ring_of i s = (s.fifo i).ring

-- c bytes of a message of n bytes are stored behind the contents of a fifo, and `left` are not.
pub record Sent (msg : List ℕ) (n c left : ℕ) (r t : Ring) : Type 0 where
  pub rest : left + c ≡ n
  pub buffer : IsBuffer t
  pub appended : contents t ≡ contents r ++ take c msg

Sent-none : (msg : List ℕ) (n : ℕ) (r : Ring) → IsBuffer r → Sent msg n 0 n r r
Sent-none msg n r b = record {
  rest = omega arith;
  buffer = b;
  appended = sym (append-nil (contents r));
}

pub ring-set_ring : (i : ℕ) (r : Ring) (s : Fifos) → ring_of i (set_ring i r s) ≡ r
ring-set_ring i r s = rw (ring_of, ==_self i) refl

contents-normal : (r : Ring) → contents (normal r) ≡ contents r
unfolding contents
contents-normal r = refl

pub mbx_put-Sent :
    (i : ℕ) (msg : List ℕ) (n : ℕ) (s : Fifos)
    → IsBuffer (ring_of i s)
    → n ≤ length msg
    → let p = mbx_put i msg n s in
      Sent msg n (min n (ring_of i s).frbs) (p.0).1 (ring_of i s) (ring_of i p.1)
unfolding mbx_put
mbx_put-Sent i msg n s b h =
    let start : PutState = record { ring = ring_of i s; msg = msg; msg_size = n } in
    let p = mbxput_loop-Put n start b h (omega arith) in
    let t = mbxput_loop (suc n) start in
    let c = min n (ring_of i s).frbs in
    subst (Sent msg n c t.msg_size (ring_of i s)) (sym (ring-set_ring i t.ring s)) (record {
      rest = p.stored.unsent;
      buffer = p.buffer;
      appended =
          sym (contents-normal t.ring)
          ∙ p.stored.appended
          ∙ ap (λ l. l ++ take c msg) (contents-normal (ring_of i s));
    })

pub ring-release_snd : (i : ℕ) (s : Fifos) → ring_of i (release_snd i s) ≡ ring_of i s
unfolding release_snd
ring-release_snd i s = ring-mbx_sem_signal _ _ s i

ring-signalled_snd : (i : ℕ) (s : Fifos) → ring_of i (release_snd i (mbx_signal i s)) ≡ ring_of i s
ring-signalled_snd i s = ring-release_snd i (mbx_signal i s) ∙ ring-mbx_signal i s i

send_now-Sent :
    (i : ℕ) (msg : List ℕ) (n : ℕ) (s : Fifos)
    → IsBuffer (ring_of i s)
    → n ≤ length msg
    → let r = send_now i msg n s in
      Sent msg n (min n (ring_of i s).frbs) r.0 (ring_of i s) (ring_of i r.1)
unfolding send_now
send_now-Sent i msg n s b h =
    let free = set_free 0 (snd_of i) s in
    let same = ring-set_sem (snd_of i) _ s i in
    let q = mbx_put i msg n free in
    let p = mbx_put-Sent i msg n free (subst IsBuffer (sym same) b) h in
    subst (Sent msg n _ (q.0).1 (ring_of i s)) (sym (ring-signalled_snd i q.1))
      (subst (λ r. Sent msg n (min n r.frbs) (q.0).1 r (ring_of i q.1)) same p)

-- How many bytes mbx_send_wp takes: what there is room for, unless another one is sending.
abbrev pub taken_wp : ℕ → ℕ → Fifos → ℕ
taken_wp i n s = if not ((s.fifo i).sndsem.free == 0) then min n (ring_of i s).frbs else 0

pub mbx_send_wp-Sent :
    (i : ℕ) (msg : List ℕ) (n : ℕ) (s : Fifos)
    → IsBuffer (ring_of i s)
    → n ≤ length msg
    → let r = mbx_send_wp i msg n s in Sent msg n (taken_wp i n s) r.0 (ring_of i s) (ring_of i r.1)
unfolding mbx_send_wp
mbx_send_wp-Sent i msg n s b h = elim (Bool-cases (not ((s.fifo i).sndsem.free == 0))) [
  | inr busy ↦ rw (busy, mbx_send_wp) (Sent-none msg n (ring_of i s) b)
  | inl free ↦ elim (Bool-cases (not ((ring_of i s).frbs == 0))) [
    | inl room ↦ rw (free, room, mbx_send_wp) (send_now-Sent i msg n s b h)
    | inr full ↦
        rw (free, full, mbx_send_wp)
          (subst (λ c. Sent msg n c n (ring_of i s) (ring_of i s)) {x = 0} (ground arith)
            (Sent-none msg n (ring_of i s) b))
  ]
]
