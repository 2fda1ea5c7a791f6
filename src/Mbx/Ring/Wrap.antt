-- ===== src/Mbx/Ring/Wrap.antt =====
-- A buffer whose write position may be its size, where it should be 0. The first round of mbxput then
-- copies nothing and sets it to 0.
use rtai.Base.{
  ℕ, suc, ◌+◌, ◌-◌, ◌≤◌, ◌<◌, ◌≡◌, refl, ap, ap₂, sym, subst, ◌∙◌, List, arith, Bool-cases, ltb,
  ◌&&◌, inl, inr, drop, min, length, true, false,
}
use native.Mathlib.Decide.{dec_lt}
use rtai.Mbx.Ring.{Ring, PutState, memcpy, put_chunk, mbxput_loop, tocpy, mod_size}
use rtai.Mbx.Ring.Inv.{IsValid}
use rtai.Mbx.Ring.Put.{Stored, Stored-refl, mbxput_loop-Stored}

abbrev pub normal : Ring → Ring
normal r = record r { lbyte = mod_size r.size r.lbyte }

abbrev pub normal_put : PutState → PutState
normal_put s = record s { ring = normal s.ring }

normal-id : (r : Ring) → r.lbyte < r.size → normal r ≡ r
normal-id r h = ap (λ l. record r { lbyte = l }) (ground arith)

-- A round in which there is no place up to the end of the buffer.
put_chunk-none : (r : Ring) (msg : List ℕ) → put_chunk r msg 0 ≡ normal r
unfolding put_chunk memcpy
put_chunk-none r msg =
    ap₂ (λ a f. record r { avbs = a; frbs = f; lbyte = mod_size r.size (r.lbyte + 0) }) {y = r.avbs}
      (omega arith) (omega arith)
    ∙ ap (λ l. record r { lbyte = mod_size r.size l }) (omega arith)

mbxput_loop-normal :
    (fuel : ℕ) (s : PutState)
    → s.ring.lbyte ≡ s.ring.size
    → (ltb 0 s.msg_size && ltb 0 s.ring.frbs) ≡ true
    → mbxput_loop (suc fuel) s ≡ mbxput_loop fuel (normal_put s)
unfolding mbxput_loop
mbxput_loop-normal fuel s e more =
    rw (more, mbxput_loop)
      (ap
          (λ k. mbxput_loop fuel (record {
            ring = put_chunk s.ring s.msg k;
            msg = drop k s.msg;
            msg_size = s.msg_size - k;
          }))
          {y = 0} (none_copied)
        ∙ ap₂ (λ r m. mbxput_loop fuel (record { ring = r; msg = s.msg; msg_size = m }))
            (put_chunk-none s.ring s.msg) (omega arith))
  where
    none_copied : tocpy (s.ring.size - s.ring.lbyte) s.msg_size s.ring.frbs ≡ 0
    none_copied = ground arith

mbxput_loop-done :
    (fuel : ℕ) (s : PutState)
    → (ltb 0 s.msg_size && ltb 0 s.ring.frbs) ≡ false
    → mbxput_loop (suc fuel) s ≡ s
unfolding mbxput_loop
mbxput_loop-done fuel s done = rw (done, mbxput_loop) refl

normal-Stored : {s t : PutState} (c : ℕ) → Stored s t c → Stored s (normal_put t) c
normal-Stored {s} {t} c p =
    subst (λ r. Stored s (record t { ring = r }) c) (sym (normal-id t.ring p.valid.last_in)) p

-- A buffer that is valid but for a write position at its end.
pub record IsBuffer (r : Ring) : Type 0 where
  pub within : r.lbyte ≤ r.size
  pub valid : IsValid (normal r)

pub IsValid-IsBuffer : (r : Ring) → IsValid r → IsBuffer r
IsValid-IsBuffer r v = record {
  within = omega (arith, v);
  valid = subst IsValid (sym (normal-id r v.last_in)) v;
}

-- What the loop of mbxput stores, with one round more than there are bytes.
pub record Put (s t : PutState) : Type 0 where
  pub buffer : IsBuffer t.ring
  pub stored : Stored (normal_put s) (normal_put t) (min s.msg_size s.ring.frbs)

Stored-Put : (s t : PutState) → Stored (normal_put s) t (min s.msg_size s.ring.frbs) → Put s t
Stored-Put s t p = record { buffer = IsValid-IsBuffer t.ring p.valid; stored = normal-Stored _ p }

pub mbxput_loop-Put :
    (fuel : ℕ) (s : PutState)
    → IsBuffer s.ring
    → s.msg_size ≤ length s.msg
    → s.msg_size ≤ fuel
    → Put s (mbxput_loop (suc fuel) s)
mbxput_loop-Put fuel s b l f = elim (dec_lt s.ring.lbyte s.ring.size) [
  | yes inside ↦
      let e = normal-id s.ring inside in
      let p = mbxput_loop-Stored (suc fuel) s (subst IsValid e b.valid) l (omega arith) in
      let t = mbxput_loop (suc fuel) s in
      Stored-Put s t
        (subst (λ r. Stored (record s { ring = r }) t (min s.msg_size s.ring.frbs)) (sym e) p)
  | no outside ↦ elim (Bool-cases (ltb 0 s.msg_size && ltb 0 s.ring.frbs)) [
    | inl more ↦
        subst (Put s) (sym (mbxput_loop-normal fuel s (omega (arith, b.within)) more))
          (Stored-Put s _ (mbxput_loop-Stored fuel (normal_put s) b.valid l f))
    | inr done ↦ subst (Put s) (sym (mbxput_loop-done fuel s done)) (record {
      buffer = b;
      stored =
          subst (Stored (normal_put s) (normal_put s)) {x = 0} (ground arith)
            (Stored-refl (normal_put s) b.valid);
    })
  ]
]
