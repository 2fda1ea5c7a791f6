-- ===== src/Mbx/Ring/Tests.antt =====
-- The mailbox buffer at concrete inputs.
use rtai.Base.{List, ◌≡◌, refl, [], ◌∷◌, ◌++◌, arith, drop, true, false}
use rtai.Mbx.Ring.{
  Ring, mbxput, put_chunk, memcpy, mbxget, get_chunk, bytes_at, mbxevdrp, mbxevdrp_loop,
  mbxovrwrput, ovrwr_loop, ovrwr_chunk, discard_loop,
}
use rtai.Mbx.Ring.Inv.{IsValid}
use rtai.Mbx.Ring.Window.{contents, window}
use rtai.Mbx.Ring.Put.{Stored, mbxput-Stored}
use rtai.Mbx.Ring.Get.{mbxget-Fetched}
use rtai.Mbx.Ring.Peek.{mbxevdrp-mbxget}
use rtai.Mbx.Ring.PeekUser.{mbxevdrp_wrapped}
use rtai.Mbx.Ring.Overwrite.{contents-mbxovrwrput}
use rtai.Mbx.Ring.RoundTrip.{mbxget-mbxput}
use rtai.Mbx.Ring.Refine.{
  Request, put, get, peek, overwrite, replies, queue_replies, replies-queue_replies,
}

-- 1, 2 and 3, of which the last two stand at the start of the buffer
abbrev wrapped : Ring
wrapped = record { size = 4; fbyte = 3; lbyte = 2; avbs = 3; frbs = 1; bufadr = 2 ∷ 3 ∷ 0 ∷ 1 ∷ [] }

wrapped-IsValid : IsValid wrapped
wrapped-IsValid = omega arith

contents-wrapped : contents wrapped ≡ 1 ∷ 2 ∷ 3 ∷ []
unfolding contents window
contents-wrapped = refl

overwritten : contents (mbxovrwrput wrapped (7 ∷ 8 ∷ 9 ∷ []) 3).ring ≡ 3 ∷ 7 ∷ 8 ∷ 9 ∷ []
unfolding mbxovrwrput ovrwr_loop ovrwr_chunk discard_loop put_chunk get_chunk memcpy contents window
overwritten = refl

-- To user space the first byte comes again, and then what lies past the end.
peeked :
    ((mbxevdrp wrapped 3 true).out ≡ 1 ∷ 2 ∷ 3 ∷ [])
    × ((mbxevdrp wrapped 3 false).out ≡ 1 ∷ 1 ∷ 0 ∷ [])
unfolding mbxevdrp mbxevdrp_loop bytes_at
peeked = (refl, refl)

mbxput-Stored_example :
    Stored
      (record { ring = wrapped; msg = 7 ∷ 8 ∷ []; msg_size = 2 })
      (mbxput wrapped (7 ∷ 8 ∷ []) 2)
      1
mbxput-Stored_example = mbxput-Stored wrapped (7 ∷ 8 ∷ []) 2 wrapped-IsValid (omega arith)

mbxget-Fetched_example :
    IsValid (mbxget wrapped 2).ring
    × ((mbxget wrapped 2).out ++ contents (mbxget wrapped 2).ring ≡ contents wrapped)
    × ((mbxget wrapped 2).ring.avbs ≡ 1)
    × ((mbxget wrapped 2).msg_size ≡ 0)
mbxget-Fetched_example = mbxget-Fetched wrapped 2 wrapped-IsValid

mbxevdrp-mbxget_example :
    ((mbxevdrp wrapped 3 true).out ≡ (mbxget wrapped 3).out)
    × ((mbxevdrp wrapped 3 true).msg_size ≡ (mbxget wrapped 3).msg_size)
mbxevdrp-mbxget_example = mbxevdrp-mbxget wrapped 3

mbxevdrp_wrapped_example :
    (mbxevdrp wrapped 3 false).out ≡ bytes_at wrapped.bufadr 3 1 ++ bytes_at wrapped.bufadr 3 2
mbxevdrp_wrapped_example =
    mbxevdrp_wrapped wrapped 3 false wrapped-IsValid (omega arith) (omega arith)

contents-mbxovrwrput_example :
    IsValid (mbxovrwrput wrapped (7 ∷ 8 ∷ 9 ∷ []) 3).ring
    × (contents (mbxovrwrput wrapped (7 ∷ 8 ∷ 9 ∷ []) 3).ring
        ≡ drop 2 (contents wrapped ++ 7 ∷ 8 ∷ 9 ∷ []))
    × ((mbxovrwrput wrapped (7 ∷ 8 ∷ 9 ∷ []) 3).msg_size ≡ 0)
contents-mbxovrwrput_example =
    contents-mbxovrwrput wrapped (7 ∷ 8 ∷ 9 ∷ []) 3 wrapped-IsValid (omega arith)

mbxget-mbxput_example :
    let p = mbxput wrapped (7 ∷ []) 1 in
    let g = mbxget p.ring 4 in
    (p.msg_size ≡ 0) × (g.out ≡ contents wrapped ++ 7 ∷ []) × (g.msg_size ≡ 0) × (g.ring.avbs ≡ 0)
mbxget-mbxput_example = mbxget-mbxput wrapped (7 ∷ []) wrapped-IsValid (omega arith)

-- a put of which one byte is not taken, an overwrite, a peek and a get
abbrev requests : List Request
requests = put (7 ∷ 8 ∷ []) ∷ overwrite (9 ∷ []) ∷ peek 2 ∷ get 5 ∷ []

replies-queue_replies_example :
    replies requests wrapped ≡ queue_replies 4 requests (contents wrapped)
replies-queue_replies_example = replies-queue_replies requests wrapped wrapped-IsValid
