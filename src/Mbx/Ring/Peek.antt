-- ===== src/Mbx/Ring/Peek.antt =====
-- mbxevdrp: reading a mailbox without emptying it.
use rtai.Base.{
  ℕ, zero, suc, ◌+◌, ◌-◌, ◌≡◌, refl, ap, ap₂, ◌∙◌, sym, List, [], ◌++◌, true, Bool-cases, ltb, ◌&&◌,
  inl, inr,
}
use rtai.Mbx.Ring.{
  Ring, GetState, PeekState, bytes_at, tocpy, mod_size, get_chunk, mbxget_loop, mbxget,
  mbxevdrp_loop, mbxevdrp,
}

-- the variables of mbxevdrp where mbxget has the state g
abbrev peek_of : GetState → PeekState
peek_of g = record { fbyte = g.ring.fbyte; avbs = g.ring.avbs; out = g.out; msg_size = g.msg_size }

-- the state after a round over a buffer of the given size and bytes
abbrev round : GetState → ℕ → List ℕ → PeekState
round g size buf =
    let k = tocpy (size - g.ring.fbyte) g.msg_size g.ring.avbs in
    record {
      fbyte = mod_size size (g.ring.fbyte + k);
      avbs = g.ring.avbs - k;
      out = g.out ++ bytes_at buf g.ring.fbyte k;
      msg_size = g.msg_size - k;
    }

mbxevdrp_loop-mbxget_loop :
    (fuel : ℕ) (r : Ring) (g : GetState)
    → g.ring.size ≡ r.size
    → g.ring.bufadr ≡ r.bufadr
    → mbxevdrp_loop fuel r true (peek_of g) ≡ peek_of (mbxget_loop fuel g)
unfolding mbxevdrp_loop mbxget_loop get_chunk
mbxevdrp_loop-mbxget_loop zero r g e f = refl
mbxevdrp_loop-mbxget_loop (suc fuel) r g e f =
    elim (Bool-cases (ltb 0 g.msg_size && ltb 0 g.ring.avbs)) [
      | inl more ↦
          let k = tocpy (g.ring.size - g.ring.fbyte) g.msg_size g.ring.avbs in
          rw (more, mbxevdrp_loop, mbxget_loop)
            (ap (mbxevdrp_loop fuel r true) (ap₂ (round g) (sym e) (sym f))
              ∙ mbxevdrp_loop-mbxget_loop fuel r
                  (record {
                    ring = get_chunk g.ring k;
                    out = g.out ++ bytes_at g.ring.bufadr g.ring.fbyte k;
                    msg_size = g.msg_size - k;
                  })
                  e f)
      | inr done ↦ rw (done, mbxevdrp_loop, mbxget_loop) refl
    ]

-- In kernel space mbxevdrp hands over the very bytes that mbxget would, and returns the same count.
pub mbxevdrp-mbxget :
    (r : Ring) (n : ℕ)
    → ((mbxevdrp r n true).out ≡ (mbxget r n).out)
      × ((mbxevdrp r n true).msg_size ≡ (mbxget r n).msg_size)
unfolding mbxevdrp mbxget
mbxevdrp-mbxget r n =
    let e = mbxevdrp_loop-mbxget_loop n r (record { ring = r; out = []; msg_size = n }) refl refl in
    (ap (λ s. s.out) e, ap (λ s. s.msg_size) e)
