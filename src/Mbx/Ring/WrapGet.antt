-- ===== src/Mbx/Ring/WrapGet.antt =====
-- mbxget on a buffer whose write position may be its size.
use rtai.Base.{
  ℕ, zero, suc, ◌-◌, ◌≡◌, refl, ap, ap₂, sym, subst, ◌∙◌, ◌++◌, arith, Bool-cases, ltb, ◌&&◌, inl,
  inr,
}
use rtai.Mbx.Ring.{Ring, GetState, get_chunk, mbxget_loop, mbxget, mod_size}
use rtai.Mbx.Ring.Inv.{IsValid}
use rtai.Mbx.Ring.Window.{contents}
use rtai.Mbx.Ring.Get.{mbxget-Fetched, size-mbxget}
use rtai.Mbx.Ring.Wrap.{normal, IsBuffer}

abbrev with_lbyte : ℕ → GetState → GetState
with_lbyte l s = record s { ring = record s.ring { lbyte = l } }

mbxget_loop-lbyte :
    (fuel l : ℕ) (s : GetState)
    → mbxget_loop fuel (with_lbyte l s) ≡ with_lbyte l (mbxget_loop fuel s)
unfolding mbxget_loop get_chunk
mbxget_loop-lbyte zero l s = refl
mbxget_loop-lbyte (suc fuel) l s = elim (Bool-cases (ltb 0 s.msg_size && ltb 0 s.ring.avbs)) [
  | inl more ↦ rw (more, mbxget_loop) (mbxget_loop-lbyte fuel l _)
  | inr done ↦ rw (done, mbxget_loop) refl
]

-- A get neither reads nor writes the write position.
mbxget-lbyte : (r : Ring) (l n : ℕ) → mbxget (record r { lbyte = l }) n ≡ with_lbyte l (mbxget r n)
unfolding mbxget
mbxget-lbyte r l n = mbxget_loop-lbyte n l _

pub record Got (r : Ring) (n : ℕ) : Type 0 where
  pub buffer : IsBuffer (mbxget r n).ring
  pub moved : (mbxget r n).out ++ contents (mbxget r n).ring ≡ contents r
  pub left : (mbxget r n).ring.avbs ≡ r.avbs - n
  pub wanted : (mbxget r n).msg_size ≡ n - r.avbs
  pub same_size : (mbxget r n).ring.size ≡ r.size

pub mbxget-Got : (r : Ring) (n : ℕ) → IsBuffer r → Got r n
unfolding contents
mbxget-Got r n b =
    let l = mod_size r.size r.lbyte in
    let e = mbxget-lbyte r l n in
    let f = mbxget-Fetched (normal r) n b.valid in
    let same_lbyte : (mbxget r n).ring.lbyte ≡ r.lbyte =
      ap (λ g. g.ring.lbyte) (mbxget-lbyte r r.lbyte n) in
    let same : (mbxget r n).ring.size ≡ r.size =
      sym (ap (λ g. g.ring.size) e) ∙ size-mbxget (normal r) n b.valid in
    record {
      buffer = record {
        within = omega (arith, b.within);
        valid =
            subst (λ k. IsValid (record (mbxget r n).ring { lbyte = k }))
              (sym (ap₂ mod_size same same_lbyte)) (subst (λ g. IsValid g.ring) e f.0);
      };
      moved = sym (ap (λ g. g.out ++ contents g.ring) e) ∙ f.1;
      left = sym (ap (λ g. g.ring.avbs) e) ∙ f.2;
      wanted = sym (ap (λ g. g.msg_size) e) ∙ f.3;
      same_size = same;
    }
