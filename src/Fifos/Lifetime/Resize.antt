-- ===== src/Fifos/Lifetime/Resize.antt =====
-- What rtf_resize does to the buffer of a fifo.
use rtai.Base.{
  ℕ, ◌+◌, ◌-◌, ◌≤◌, ◌<◌, ◌≡◌, refl, ap, sym, ◌∙◌, List, [], ◌∷◌, ◌++◌, arith, length, take-length,
  inl,
}
use mathlib.Core.List.{append-nil}
use rtai.Mbx.Ring.{Ring, memcpy, mbxget, mod_size}
use rtai.Mbx.Ring.Window.{contents, window, window-memcpy, length-memcpy}
use rtai.Mbx.Ring.Discard.{length-contents}
use rtai.Mbx.Ring.Wrap.{IsBuffer}
use rtai.Mbx.Ring.WrapGet.{mbxget-Got}
use rtai.Fifos.Lifetime.{refilled}

nil_of_length : (xs : List ℕ) → length xs ≡ 0 → xs ≡ []
nil_of_length [] h = refl
nil_of_length (x ∷ xs) h = absurd (omega arith)

-- the new buffer, with the new size
abbrev pub resized : Ring → List ℕ → ℕ → Ring
resized r newbuf size = record (refilled r newbuf size) { size = size }

pub record Resized (r t : Ring) (size : ℕ) : Type 0 where
  pub buffer : IsBuffer t
  pub same_contents : contents t ≡ contents r
  pub new_size : t.size ≡ size
  pub room : t.frbs + r.avbs ≡ size

module _ (r : Ring) (newbuf : List ℕ) (size : ℕ) (b : IsBuffer r) (some_size : 0 < size)
    (holds : r.avbs ≤ size) (long : size ≤ length newbuf) where
  out-contents : (mbxget r size).out ≡ contents r
  out-contents =
      let g = mbxget-Got r size b in
      let left = contents (mbxget r size).ring in
      let none_left =
        nil_of_length left (length-contents (mbxget r size).ring ∙ g.left ∙ omega arith) in
      sym (append-nil (mbxget r size).out) ∙ ap (◌++◌ (mbxget r size).out) (sym none_left) ∙ g.moved

  length_out : length (mbxget r size).out ≡ r.avbs
  length_out = ap length out-contents ∙ length-contents r

  copied :
      window (memcpy newbuf 0 (mbxget r size).out (length (mbxget r size).out)) size 0 r.avbs
      ≡ contents r
  unfolding window
  copied =
      let out = (mbxget r size).out in
      let k = length out in
      ap (window (memcpy newbuf 0 out k) size 0) {y = 0 + k} (omega (arith, length_out))
      ∙ window-memcpy newbuf size out k 0 0 0 long some_size (omega (arith, length_out))
          (omega (arith, length_out)) (omega arith) (inl (omega arith))
      ∙ take-length out
      ∙ out-contents

  pub resized-Resized : Resized r (resized r newbuf size) size
  unfolding refilled contents
  resized-Resized =
      let g = mbxget-Got r size b in
      let out = (mbxget r size).out in
      let same : size - (mbxget r size).msg_size ≡ r.avbs = omega (arith, g.wanted) in
      record {
        buffer = record {
          within = omega arith;
          valid = record {
            storage = rw (length-memcpy newbuf 0 out (length out)) long;
            first_in = some_size;
            last_in = ground arith;
            filled = omega (arith, g.wanted);
            wraps = ap (mod_size size) (omega arith);
          };
        };
        same_contents = ap (window (memcpy newbuf 0 out (length out)) size 0) same ∙ copied;
        new_size = refl;
        room = omega (arith, g.wanted);
      }
