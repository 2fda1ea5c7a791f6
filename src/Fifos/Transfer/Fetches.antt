-- ===== src/Fifos/Transfer/Fetches.antt =====
-- What the receives that do not wait take off the buffer of a fifo.
use rtai.Base.{
  ℕ, ◌-◌, ◌≡◌, refl, sym, subst, ◌∙◌, List, [], ◌++◌, arith, Bool-cases, inl, inr, ◌==◌, not,
  if◌then◌else◌,
}
use rtai.Mbx.Ring.{Ring, mbxget}
use rtai.Mbx.Ring.Window.{contents}
use rtai.Mbx.Ring.Wrap.{IsBuffer}
use rtai.Mbx.Ring.WrapGet.{mbxget-Got}
use rtai.Fifos.State.{Fifos, rcv_of}
use rtai.Fifos.State.Frames.{ring-set_sem}
use rtai.Fifos.Block.{mbx_signal, set_free}
use rtai.Fifos.Block.Frames.{ring-mbx_sem_signal, ring-mbx_signal}
use rtai.Fifos.Transfer.{mbx_get, receive_now, release_rcv, mbx_receive_wp}
use rtai.Fifos.Transfer.Stores.{ring_of, ring-set_ring}

-- Of n bytes asked for, `out` are taken off the front of a fifo, and `left` are not there.
pub record Taken (n : ℕ) (out : List ℕ) (left : ℕ) (r t : Ring) : Type 0 where
  pub buffer : IsBuffer t
  pub moved : out ++ contents t ≡ contents r
  pub fewer : t.avbs ≡ r.avbs - n
  pub missing : left ≡ n - r.avbs

mbx_get-Taken :
    (i n : ℕ) (s : Fifos)
    → IsBuffer (ring_of i s)
    → let g = mbx_get i n s in Taken n (g.0).0 (g.0).1 (ring_of i s) (ring_of i g.1)
unfolding mbx_get
mbx_get-Taken i n s b =
    let g = mbxget (ring_of i s) n in
    let p = mbxget-Got (ring_of i s) n b in
    subst (Taken n g.out g.msg_size (ring_of i s)) (sym (ring-set_ring i g.ring s))
      (record { buffer = p.buffer; moved = p.moved; fewer = p.left; missing = p.wanted })

pub ring-release_rcv : (i : ℕ) (s : Fifos) → ring_of i (release_rcv i s) ≡ ring_of i s
unfolding release_rcv
ring-release_rcv i s = ring-mbx_sem_signal _ _ s i

ring-signalled_rcv : (i : ℕ) (s : Fifos) → ring_of i (release_rcv i (mbx_signal i s)) ≡ ring_of i s
ring-signalled_rcv i s = ring-release_rcv i (mbx_signal i s) ∙ ring-mbx_signal i s i

receive_now-Taken :
    (i n : ℕ) (s : Fifos)
    → IsBuffer (ring_of i s)
    → let r = receive_now i n s in Taken n (r.0).0 (r.0).1 (ring_of i s) (ring_of i r.1)
unfolding receive_now
receive_now-Taken i n s b =
    let free = set_free 0 (rcv_of i) s in
    let same = ring-set_sem (rcv_of i) _ s i in
    let g = mbx_get i n free in
    let p = mbx_get-Taken i n free (subst IsBuffer (sym same) b) in
    subst (Taken n (g.0).0 (g.0).1 (ring_of i s)) (sym (ring-signalled_rcv i g.1))
      (subst (λ r. Taken n (g.0).0 (g.0).1 r (ring_of i g.1)) same p)

pub mbx_receive_wp-Taken :
    (i n : ℕ) (s : Fifos)
    → IsBuffer (ring_of i s)
    → let r = mbx_receive_wp i n s in
      if not ((s.fifo i).rcvsem.free == 0)
      then Taken n (r.0).0 (r.0).1 (ring_of i s) (ring_of i r.1)
      else (r ≡ (([], n), s))
unfolding mbx_receive_wp
mbx_receive_wp-Taken i n s b = elim (Bool-cases (not ((s.fifo i).rcvsem.free == 0))) [
  | inr busy ↦ rw (busy, mbx_receive_wp) refl
  | inl free ↦ elim (Bool-cases (not ((ring_of i s).avbs == 0))) [
    | inl some_bytes ↦ rw (free, some_bytes, mbx_receive_wp) (receive_now-Taken i n s b)
    | inr empty ↦
        rw (free, empty, mbx_receive_wp)
          (record { buffer = b; moved = refl; fewer = ground arith; missing = ground arith })
  ]
]
