-- ===== src/Fifos/Service/Data.antt =====
-- What rtf_put and rtf_get do to the bytes of a fifo.
use rtai.Base.{
  ℕ, ◌-◌, ◌≤◌, ◌≡◌, ap, subst, List, [], ◌++◌, arith, length, take, none, if◌then◌else◌, not, ◌==◌,
  min, true,
}
use rtai.Base.Int.{pos}
use rtai.Mbx.Ring.Window.{contents}
use rtai.Mbx.Ring.Wrap.{IsBuffer}
use rtai.Fifos.State.{Fifos}
use rtai.Fifos.Transfer.Stores.{ring_of, mbx_send_wp-Sent}
use rtai.Fifos.Transfer.{mbx_receive_wp}
use rtai.Fifos.Transfer.Fetches.{Taken, mbx_receive_wp-Taken}
use rtai.Fifos.Service.{valid_fifo, rtf_put, rtf_get}

-- rtf_put on an open fifo whose buffer is in order: it returns the number of bytes that it stores, as
-- many as there is room for, or none while another one is sending; these are the first bytes of the
-- message, they stand behind the old contents, and the buffer is in order.
pub rtf_put-stores :
    (i : ℕ) (msg : List ℕ) (n : ℕ) (s : Fifos)
    → valid_fifo i s ≡ none
    → IsBuffer (ring_of i s)
    → n ≤ length msg
    → let c = if not ((s.fifo i).sndsem.free == 0) then min n (ring_of i s).frbs else 0 in
      let r = rtf_put i msg n s in
      (r.0 ≡ pos c)
      × IsBuffer (ring_of i r.1)
      × (contents (ring_of i r.1) ≡ contents (ring_of i s) ++ take c msg)
unfolding rtf_put
rtf_put-stores i msg n s valid b h =
    let p = mbx_send_wp-Sent i msg n s b h in
    rw (valid, rtf_put) (ap pos (omega (arith, p.rest)), p.buffer, p.appended)

-- rtf_get on an open fifo whose buffer is in order, while no other one is receiving: it returns the
-- number of bytes that it hands over, as many of the n asked for as are there; these and the contents
-- afterwards are the old contents, and the buffer is in order.
pub rtf_get-takes :
    (i n : ℕ) (s : Fifos)
    → valid_fifo i s ≡ none
    → IsBuffer (ring_of i s)
    → not ((s.fifo i).rcvsem.free == 0) ≡ true
    → let r = rtf_get i n s in
      ((r.0).1 ≡ pos (min n (ring_of i s).avbs))
      × IsBuffer (ring_of i r.1)
      × ((r.0).0 ++ contents (ring_of i r.1) ≡ contents (ring_of i s))
      × ((ring_of i r.1).avbs ≡ (ring_of i s).avbs - n)
unfolding rtf_get
rtf_get-takes i n s valid b free =
    let r = mbx_receive_wp i n s in
    let p : Taken n (r.0).0 (r.0).1 (ring_of i s) (ring_of i r.1) =
      subst
        (λ t.
          if t then Taken n (r.0).0 (r.0).1 (ring_of i s) (ring_of i r.1) else (r ≡ (([], n), s)))
        free (mbx_receive_wp-Taken i n s b) in
    rw (valid, rtf_get) (ap pos (omega (arith, p.missing)), p.buffer, p.moved, p.fewer)
