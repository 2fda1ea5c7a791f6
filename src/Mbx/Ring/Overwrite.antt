-- ===== src/Mbx/Ring/Overwrite.antt =====
-- mbxovrwrput keeps the newest bytes.
use native.Mathlib.Decide.{dec_le}
use rtai.Base.{
  drop-take, ℕ, zero, suc, ◌+◌, ◌-◌, ◌*◌, ◌≤◌, ◌<◌, ◌≡◌, refl, ap, ap₂, ◌∙◌, sym, List, ◌++◌, arith,
  Bool-cases, ltb, inl, inr, length, take, drop, length-drop, if◌then◌else◌,
}
use mathlib.Core.List.{append-nil}
use rtai.Mbx.Ring.{Ring, PutState, tocpy, discard_loop, ovrwr_chunk, ovrwr_loop, mbxovrwrput}
use rtai.Mbx.Ring.Inv.{IsValid}
use rtai.Mbx.Ring.Window.{contents}
use rtai.Mbx.Ring.Put.{Stored, Stored-refl, after_chunk-Stored, tocpy_bounds, tocpy_pos}
use rtai.Mbx.Ring.Discard.{
  discard_loop-Discarded, kept, Stored-kept, Discarded-kept, length-contents, drop-append,
}

-- a state between two rounds
record Between (s : PutState) : Type 0 where
  valid : IsValid s.ring
  short : s.msg_size ≤ s.ring.size
  there : s.msg_size ≤ length s.msg

-- What a round does: the bytes to be kept stay the same, and there is room for the rest.
record Round (s t : PutState) : Type 0 where
  next : Between t
  same_size : t.ring.size ≡ s.ring.size
  same_kept : kept t ≡ kept s
  no_longer : t.msg_size ≤ s.msg_size
  shorter : 0 < s.ring.frbs → t.msg_size < s.msg_size
  room : t.msg_size ≤ t.ring.frbs

-- the second `if` of the loop
abbrev make_room : PutState → PutState
make_room t =
    if ltb 0 t.msg_size then record t { ring = discard_loop t.msg_size t.ring t.msg_size } else t

record Chunked (s t : PutState) : Type 0 where
  count : ℕ
  stored : Stored s t count
  some_bytes : 0 < s.ring.frbs → 0 < count

ovrwr_chunk-Chunked : (s : PutState) → Between s → 0 < s.msg_size → Chunked s (ovrwr_chunk s)
unfolding ovrwr_chunk
ovrwr_chunk-Chunked s b h = elim (Bool-cases (ltb 0 s.ring.frbs)) [
  | inl free ↦
      let room = s.ring.size - s.ring.lbyte in
      let k = tocpy room s.msg_size s.ring.frbs in
      let q = tocpy_bounds room s.msg_size s.ring.frbs in
      rw free (record {
        count = k;
        stored = after_chunk-Stored s k b.valid b.there q.1 (omega (arith, b.valid)) q.2;
        some_bytes = tocpy_pos room s.msg_size s.ring.frbs (omega (arith, b.valid)) h;
      })
  | inr full ↦
      rw full (record { count = 0; stored = Stored-refl s b.valid; some_bytes = λ f. ground arith })
]

-- The message that is left is there after a round.
left_there : {s t : PutState} → Between s → (c : Chunked s t) → t.msg_size ≤ length t.msg
left_there {s} {t} b c =
    rw c.stored.rest (omega (arith, length-drop c.count s.msg, b.there, c.stored.unsent))

make_room-Round : (s t : PutState) → Between s → Chunked s t → Round s (make_room t)
make_room-Round s t b c = elim (Bool-cases (ltb 0 t.msg_size)) [
  | inl more ↦
      let v = c.stored.valid in
      let d = discard_loop-Discarded t.msg_size t.ring t.msg_size v (omega arith) (omega arith) in
      rw more (record {
        next = record { valid = d.valid; short = omega arith; there = left_there b c };
        same_size = d.same_size ∙ c.stored.same_size;
        same_kept =
            Discarded-kept (t.msg_size - t.ring.frbs) t.msg t.msg_size v (omega arith) d
            ∙ Stored-kept c.count b.valid c.stored;
        no_longer = omega arith;
        shorter = λ f. omega (arith, c.some_bytes f);
        room = omega arith;
      })
  | inr done ↦ rw done (record {
    next = record { valid = c.stored.valid; short = omega arith; there = left_there b c };
    same_size = c.stored.same_size;
    same_kept = Stored-kept c.count b.valid c.stored;
    no_longer = omega arith;
    shorter = λ f. omega (arith, c.some_bytes f);
    room = ground arith;
  })
]

ovrwr_chunk-Round :
    (s : PutState) → Between s → 0 < s.msg_size → Round s (make_room (ovrwr_chunk s))
ovrwr_chunk-Round s b h = make_room-Round s (ovrwr_chunk s) b (ovrwr_chunk-Chunked s b h)

-- The end of the loop.
record Finished (s t : PutState) : Type 0 where
  valid : IsValid t.ring
  size_left : t.ring.size ≡ s.ring.size
  kept_left : kept t ≡ kept s
  sent : t.msg_size ≡ 0

Round-Finished : {s t u : PutState} → Round s t → Finished t u → Finished s u
Round-Finished p q = record {
  valid = q.valid;
  size_left = q.size_left ∙ p.same_size;
  kept_left = q.kept_left ∙ p.same_kept;
  sent = q.sent;
}

-- With room for the rest of the message, each round stores a byte.
ovrwr_loop-Finished_of_room :
    (fuel : ℕ) (s : PutState)
    → Between s
    → s.msg_size ≤ s.ring.frbs
    → s.msg_size ≤ fuel
    → Finished s (ovrwr_loop fuel s)
unfolding ovrwr_loop
ovrwr_loop-Finished_of_room zero s b r f = record {
  valid = b.valid;
  size_left = refl;
  kept_left = refl;
  sent = omega arith;
}
ovrwr_loop-Finished_of_room (suc fuel) s b r f = elim (Bool-cases (ltb 0 s.msg_size)) [
  | inl more ↦
      let p = ovrwr_chunk-Round s b (ground arith) in
      let e : 0 < s.ring.frbs = ground arith in
      let rest =
        ovrwr_loop-Finished_of_room fuel (make_room (ovrwr_chunk s)) p.next p.room
          (omega (arith, p.shorter e)) in
      rw (more, ovrwr_loop) (Round-Finished p rest)
  | inr done ↦
      rw (done, ovrwr_loop)
        (record { valid = b.valid; size_left = refl; kept_left = refl; sent = ground arith })
]

-- A first round makes room, if there is none.
ovrwr_loop-Finished :
    (fuel : ℕ) (s : PutState) → Between s → s.msg_size < fuel → Finished s (ovrwr_loop fuel s)
unfolding ovrwr_loop
ovrwr_loop-Finished zero s b f = absurd (omega arith)
ovrwr_loop-Finished (suc fuel) s b f = elim (Bool-cases (ltb 0 s.msg_size)) [
  | inl more ↦
      let p = ovrwr_chunk-Round s b (ground arith) in
      let rest =
        ovrwr_loop-Finished_of_room fuel (make_room (ovrwr_chunk s)) p.next p.room
          (omega (arith, p.no_longer)) in
      rw (more, ovrwr_loop) (Round-Finished p rest)
  | inr done ↦
      rw (done, ovrwr_loop)
        (record { valid = b.valid; size_left = refl; kept_left = refl; sent = ground arith })
]

kept_at_end : (t : PutState) → IsValid t.ring → t.msg_size ≡ 0 → kept t ≡ contents t.ring
unfolding kept
kept_at_end t v e =
    ap₂ drop {y = 0} (omega arith) (ap (λ k. contents t.ring ++ take k t.msg) e)
    ∙ append-nil (contents t.ring)

-- Skipping the bytes of the message that can find no place changes nothing of what is kept.
kept-skip :
    (r : Ring) (msg : List ℕ) (n : ℕ)
    → IsValid r
    → kept (record { ring = r; msg = drop (n - r.size) msg; msg_size = n - (n - r.size) })
      ≡ drop (r.avbs + n - r.size) (contents r ++ take n msg)
unfolding kept
kept-skip r msg n v = elim (dec_le n r.size) [
  | yes short ↦
      let none_skipped : n - r.size ≡ 0 = omega arith in
      let all_left : n - (n - r.size) ≡ n = omega arith in
      rw all_left
        (ap (λ k. drop (r.avbs + n - r.size) (contents r ++ take n (drop k msg))) none_skipped)
  | no long ↦
      let x = n - r.size in
      let tail = take (n - x) (drop x msg) in
      drop-append (r.avbs + (n - x) - r.size) (contents r) tail (omega (arith, length-contents r))
      ∙ ap (λ k. drop k tail) {y = 0} (omega (arith, length-contents r))
      ∙ sym (drop-take x n msg)
      ∙ ap (λ k. drop k (take n msg)) (omega (arith, length-contents r))
      ∙ sym (
          drop-append (r.avbs + n - r.size) (contents r) (take n msg)
            (omega (arith, length-contents r)))
]

-- the state in which the loop begins
abbrev at_start : Ring → List ℕ → ℕ → PutState
at_start r msg n = record { ring = r; msg = drop (n - r.size) msg; msg_size = n - (n - r.size) }

mbxovrwrput-Finished :
    (r : Ring) (msg : List ℕ) (n : ℕ)
    → IsValid r
    → n ≤ length msg
    → Finished (at_start r msg n) (mbxovrwrput r msg n)
unfolding mbxovrwrput
mbxovrwrput-Finished r msg n v h =
    let x = n - r.size in
    let b : Between (at_start r msg n) = record {
      valid = v;
      short = omega arith;
      there = omega (arith, length-drop x msg);
    } in
    ovrwr_loop-Finished (2 * (n - x) + 1) (at_start r msg n) b (omega arith)

pub size-mbxovrwrput :
    (r : Ring) (msg : List ℕ) (n : ℕ)
    → IsValid r
    → n ≤ length msg
    → (mbxovrwrput r msg n).ring.size ≡ r.size
size-mbxovrwrput r msg n v h = (mbxovrwrput-Finished r msg n v h).size_left

-- mbxovrwrput leaves the buffer valid and takes the whole message: of the old contents followed by
-- the message's n bytes, the last bytes that fit in the buffer are kept, in their order.
pub contents-mbxovrwrput :
    (r : Ring) (msg : List ℕ) (n : ℕ)
    → IsValid r
    → n ≤ length msg
    → IsValid (mbxovrwrput r msg n).ring
      × (contents (mbxovrwrput r msg n).ring
          ≡ drop (r.avbs + n - r.size) (contents r ++ take n msg))
      × ((mbxovrwrput r msg n).msg_size ≡ 0)
contents-mbxovrwrput r msg n v h =
    let f = mbxovrwrput-Finished r msg n v h in
    (f.valid, sym (kept_at_end _ f.valid f.sent) ∙ f.kept_left ∙ kept-skip r msg n v, f.sent)
