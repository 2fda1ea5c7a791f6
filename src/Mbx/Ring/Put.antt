-- ===== src/Mbx/Ring/Put.antt =====
-- mbxput appends what fits to the contents of the buffer.
use rtai.Base.{
  ℕ, zero, ◌+◌, ◌-◌, ◌≤◌, ◌<◌, min, ◌≡◌, refl, ap, ap₂, ◌∙◌, sym, List, ◌++◌, arith, length,
  length-drop, take, drop, take-add, drop-drop, suc, Bool-cases, ltb, ◌&&◌, inl, inr, subst,
}
use mathlib.Core.List.{append_assoc, append-nil}
use rtai.Mbx.Ring.{Ring, PutState, tocpy, put_chunk, mbxput_loop, mbxput}
use rtai.Mbx.Ring.Inv.{IsValid}
use rtai.Mbx.Ring.Window.{contents, window-memcpy, length-memcpy}

module _ {r : Ring} (msg : List ℕ) (k : ℕ) (v : IsValid r) (room : r.lbyte + k ≤ r.size)
    (fits : k ≤ r.frbs) where
  put_chunk-IsValid : IsValid (put_chunk r msg k)
  unfolding put_chunk
  put_chunk-IsValid = ground (arith, length-memcpy r.bufadr r.lbyte msg k)

  contents-put_chunk : k ≤ length msg → contents (put_chunk r msg k) ≡ contents r ++ take k msg
  unfolding put_chunk contents
  contents-put_chunk h =
      window-memcpy r.bufadr r.size msg k r.avbs r.fbyte r.lbyte (omega arith) (omega arith) room
        (omega arith) h (ground arith)

-- What a run of the loop leaves: `c` is stored behind the old contents.
pub record Stored (s t : PutState) (c : ℕ) : Type 0 where
  pub valid : IsValid t.ring
  pub same_size : t.ring.size ≡ s.ring.size
  pub free : t.ring.frbs + c ≡ s.ring.frbs
  pub appended : contents t.ring ≡ contents s.ring ++ take c s.msg
  pub rest : t.msg ≡ drop c s.msg
  pub unsent : t.msg_size + c ≡ s.msg_size

pub Stored-refl : (s : PutState) → IsValid s.ring → Stored s s 0
Stored-refl s v = record {
  valid = v;
  same_size = refl;
  free = omega arith;
  appended = sym (append-nil _);
  rest = refl;
  unsent = omega arith;
}

Stored-trans : {s t u : PutState} (c d : ℕ) → Stored s t c → Stored t u d → Stored s u (c + d)
Stored-trans {s} c d p q = record {
  valid = q.valid;
  same_size = q.same_size ∙ p.same_size;
  free = omega arith;
  appended =
      q.appended
      ∙ ap₂ (λ a b. a ++ take d b) p.appended p.rest
      ∙ append_assoc (contents s.ring) (take c s.msg) (take d (drop c s.msg))
      ∙ ap (◌++◌ (contents s.ring)) (sym (take-add c d s.msg));
  rest = q.rest ∙ ap (drop d) p.rest ∙ drop-drop c d s.msg;
  unsent = omega arith;
}

-- one round, as a state
abbrev pub after_chunk : PutState → ℕ → PutState
after_chunk s k = record {
  ring = put_chunk s.ring s.msg k;
  msg = drop k s.msg;
  msg_size = s.msg_size - k;
}

pub after_chunk-Stored :
    (s : PutState) (k : ℕ)
    → IsValid s.ring
    → s.msg_size ≤ length s.msg
    → k ≤ s.msg_size
    → s.ring.lbyte + k ≤ s.ring.size
    → k ≤ s.ring.frbs
    → Stored s (after_chunk s k) k
unfolding put_chunk
after_chunk-Stored s k v l m room fits = record {
  valid = put_chunk-IsValid s.msg k v room fits;
  same_size = refl;
  free = omega arith;
  appended = contents-put_chunk s.msg k v room fits (omega arith);
  rest = refl;
  unsent = omega arith;
}

pub tocpy_bounds :
    (room n limit : ℕ)
    → (tocpy room n limit ≤ room) × (tocpy room n limit ≤ n) × (tocpy room n limit ≤ limit)
tocpy_bounds room n limit = ground arith

-- A round with something to copy and room for it copies at least one byte.
pub tocpy_pos : (room n limit : ℕ) → 0 < room → 0 < n → 0 < limit → 0 < tocpy room n limit
tocpy_pos room n limit p q r = ground arith

pub mbxput_loop-Stored :
    (fuel : ℕ) (s : PutState)
    → IsValid s.ring
    → s.msg_size ≤ length s.msg
    → s.msg_size ≤ fuel
    → Stored s (mbxput_loop fuel s) (min s.msg_size s.ring.frbs)
unfolding mbxput_loop
mbxput_loop-Stored zero s v l f = subst (Stored s s) {x = 0} (omega arith) (Stored-refl s v)
mbxput_loop-Stored (suc fuel) s v l f = elim (Bool-cases (ltb 0 s.msg_size && ltb 0 s.ring.frbs)) [
  | inl more ↦
      let room = s.ring.size - s.ring.lbyte in
      let k = tocpy room s.msg_size s.ring.frbs in
      let b = tocpy_bounds room s.msg_size s.ring.frbs in
      let first = after_chunk-Stored s k v l b.1 (omega arith) b.2 in
      let next =
        mbxput_loop-Stored fuel (after_chunk s k) first.valid
          (rw (length-drop k s.msg) (omega arith)) (ground arith) in
      rw (more, mbxput_loop) (subst (Stored s _) (ground arith) (Stored-trans k _ first next))
  | inr done ↦ rw (done, mbxput_loop) (subst (Stored s s) {x = 0} (ground arith) (Stored-refl s v))
]

-- What mbxput does to a valid buffer: it stores the first `min msg_size frbs` bytes of the message
-- behind the contents, and hands back the rest of the message and the number of its bytes.
pub mbxput-Stored :
    (r : Ring) (msg : List ℕ) (n : ℕ)
    → IsValid r
    → n ≤ length msg
    → Stored (record { ring = r; msg = msg; msg_size = n }) (mbxput r msg n) (min n r.frbs)
unfolding mbxput
mbxput-Stored r msg n v l =
    mbxput_loop-Stored n (record { ring = r; msg = msg; msg_size = n }) v l (omega arith)
