-- ===== src/Mbx/Ring/RoundTrip.antt =====
-- What is sent through a mailbox buffer is received.
use rtai.Base.{
  ℕ, ◌+◌, ◌≤◌, ◌≡◌, refl, sym, ap, ◌∙◌, List, [], ◌∷◌, ◌++◌, arith, length, take, take-length, min,
}
use mathlib.Core.List.{append-nil}
use rtai.Mbx.Ring.{Ring, mbxput, mbxget}
use rtai.Mbx.Ring.Inv.{IsValid}
use rtai.Mbx.Ring.Window.{contents}
use rtai.Mbx.Ring.Put.{mbxput-Stored}
use rtai.Mbx.Ring.Get.{mbxget-Fetched}
use rtai.Mbx.Ring.Discard.{length-contents}

-- A list of the length 0 is empty.
nil_of_length : (xs : List ℕ) → length xs ≡ 0 → xs ≡ []
nil_of_length [] h = refl
nil_of_length (x ∷ xs) h = absurd (omega arith)

-- A message that fits behind the contents of a valid buffer is stored whole, and a receiver that asks
-- for all that is there then gets the old contents followed by the message, and leaves the buffer
-- empty.
pub mbxget-mbxput :
    (r : Ring) (msg : List ℕ)
    → IsValid r
    → length msg ≤ r.frbs
    → let p = mbxput r msg (length msg) in
      let g = mbxget p.ring (r.avbs + length msg) in
      (p.msg_size ≡ 0) × (g.out ≡ contents r ++ msg) × (g.msg_size ≡ 0) × (g.ring.avbs ≡ 0)
mbxget-mbxput r msg v h =
    let n = length msg in
    let p = mbxput-Stored r msg n v (omega arith) in
    let g = mbxget-Fetched (mbxput r msg n).ring (r.avbs + n) p.valid in
    let left = (mbxget (mbxput r msg n).ring (r.avbs + n)).ring in
    let full : (mbxput r msg n).ring.avbs ≡ r.avbs + n =
      omega (arith, p.valid.filled, p.same_size, p.free) in
    let none_left : left.avbs ≡ 0 = omega (arith, g.2, full) in
    let empty = nil_of_length (contents left) (length-contents left ∙ none_left) in
    let out = (mbxget (mbxput r msg n).ring (r.avbs + n)).out in
    let whole : take (min n r.frbs) msg ≡ msg =
      ap (λ k. take k msg) {y = n} (omega arith) ∙ take-length msg in
    (
      omega (arith, p.unsent),
      sym (append-nil out)
          ∙ ap (◌++◌ out) (sym empty)
          ∙ g.1
          ∙ p.appended
          ∙ ap (◌++◌ (contents r)) whole,
      omega (arith, g.3, full),
      none_left,
    )
