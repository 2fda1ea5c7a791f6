-- ===== src/Mbx/Ring/Get.antt =====
-- mbxget takes the oldest bytes off the contents of the buffer, and mbxevdrp reads them in place.
use rtai.Base.{
  ℕ, zero, suc, ◌+◌, ◌-◌, ◌≤◌, min, ◌≡◌, refl, ap, ◌∙◌, subst, [], ◌++◌, arith, Bool-cases, ltb,
  ◌&&◌, inl, inr,
}
use mathlib.Core.List.{append_assoc}
use rtai.Mbx.Ring.{Ring, GetState, bytes_at, tocpy, get_chunk, mbxget_loop, mbxget}
use rtai.Mbx.Ring.Inv.{IsValid}
use rtai.Mbx.Ring.Window.{contents, window, bytes_at-window}
use rtai.Mbx.Ring.Put.{tocpy_bounds}

module _ {r : Ring} (k : ℕ) (v : IsValid r) (room : r.fbyte + k ≤ r.size) (held : k ≤ r.avbs) where
  pub get_chunk-IsValid : IsValid (get_chunk r k)
  unfolding get_chunk
  get_chunk-IsValid = ground arith

  pub contents-get_chunk : bytes_at r.bufadr r.fbyte k ++ contents (get_chunk r k) ≡ contents r
  unfolding get_chunk contents
  contents-get_chunk =
      bytes_at-window r.bufadr r.size k (r.avbs - k) r.fbyte (omega arith) room
      ∙ ap (window r.bufadr r.size r.fbyte) (omega arith)

-- What a run of the loop leaves: `c` bytes moved from the front of the contents to the caller.
pub record Fetched (s t : GetState) (c : ℕ) : Type 0 where
  pub valid : IsValid t.ring
  pub same_size : t.ring.size ≡ s.ring.size
  pub left : t.ring.avbs + c ≡ s.ring.avbs
  pub moved : t.out ++ contents t.ring ≡ s.out ++ contents s.ring
  pub wanted : t.msg_size + c ≡ s.msg_size

Fetched-refl : (s : GetState) → IsValid s.ring → Fetched s s 0
Fetched-refl s v = record {
  valid = v;
  same_size = refl;
  left = omega arith;
  moved = refl;
  wanted = omega arith;
}

Fetched-trans : {s t u : GetState} (c d : ℕ) → Fetched s t c → Fetched t u d → Fetched s u (c + d)
Fetched-trans c d p q = record {
  valid = q.valid;
  same_size = q.same_size ∙ p.same_size;
  left = omega arith;
  moved = q.moved ∙ p.moved;
  wanted = omega arith;
}

abbrev after_chunk : GetState → ℕ → GetState
after_chunk s k = record {
  ring = get_chunk s.ring k;
  out = s.out ++ bytes_at s.ring.bufadr s.ring.fbyte k;
  msg_size = s.msg_size - k;
}

after_chunk-Fetched :
    (s : GetState) (k : ℕ)
    → IsValid s.ring
    → k ≤ s.msg_size
    → s.ring.fbyte + k ≤ s.ring.size
    → k ≤ s.ring.avbs
    → Fetched s (after_chunk s k) k
after_chunk-Fetched s k v m room held = record {
  valid = get_chunk-IsValid k v room held;
  same_size = unfold get_chunk in refl;
  left = unfold get_chunk in omega arith;
  moved =
      append_assoc s.out (bytes_at s.ring.bufadr s.ring.fbyte k) (contents (get_chunk s.ring k))
      ∙ ap (◌++◌ s.out) (contents-get_chunk k v room held);
  wanted = omega arith;
}

avbs-get_chunk : (r : Ring) (k : ℕ) → (get_chunk r k).avbs ≡ r.avbs - k
unfolding get_chunk
avbs-get_chunk r k = refl

mbxget_loop-Fetched :
    (fuel : ℕ) (s : GetState)
    → IsValid s.ring
    → s.msg_size ≤ fuel
    → Fetched s (mbxget_loop fuel s) (min s.msg_size s.ring.avbs)
unfolding mbxget_loop
mbxget_loop-Fetched zero s v f = subst (Fetched s s) {x = 0} (omega arith) (Fetched-refl s v)
mbxget_loop-Fetched (suc fuel) s v f = elim (Bool-cases (ltb 0 s.msg_size && ltb 0 s.ring.avbs)) [
  | inl more ↦
      let room = s.ring.size - s.ring.fbyte in
      let k = tocpy room s.msg_size s.ring.avbs in
      let b = tocpy_bounds room s.msg_size s.ring.avbs in
      let first = after_chunk-Fetched s k v b.1 (omega arith) b.2 in
      let next = mbxget_loop-Fetched fuel (after_chunk s k) first.valid (ground arith) in
      rw (more, mbxget_loop)
        (subst (Fetched s _) (ground (arith, avbs-get_chunk s.ring k))
          (Fetched-trans k _ first next))
  | inr done ↦
      rw (done, mbxget_loop) (subst (Fetched s s) {x = 0} (ground arith) (Fetched-refl s v))
]

-- What mbxget does to a valid buffer: `min msg_size avbs` bytes go from the front of the contents to
-- the caller, in their order, and the number of bytes still wanted is what is left of msg_size.
pub mbxget-Fetched :
    (r : Ring) (n : ℕ)
    → IsValid r
    → IsValid (mbxget r n).ring
      × ((mbxget r n).out ++ contents (mbxget r n).ring ≡ contents r)
      × ((mbxget r n).ring.avbs ≡ r.avbs - n)
      × ((mbxget r n).msg_size ≡ n - r.avbs)
unfolding mbxget
mbxget-Fetched r n v =
    let f = mbxget_loop-Fetched n (record { ring = r; out = []; msg_size = n }) v (omega arith) in
    (f.valid, f.moved, omega arith, omega arith)

pub size-mbxget : (r : Ring) (n : ℕ) → IsValid r → (mbxget r n).ring.size ≡ r.size
unfolding mbxget
size-mbxget r n v =
    (mbxget_loop-Fetched n (record { ring = r; out = []; msg_size = n }) v (omega arith)).same_size
