-- ===== src/Mbx/Ring/Discard.antt =====
-- Giving up the oldest bytes of a mailbox, and what is to be kept of a message behind them.
use rtai.Base.{
  ℕ, zero, suc, ◌+◌, ◌-◌, ◌≤◌, ◌<◌, ◌≡◌, refl, ap, ap₂, ◌∙◌, sym, subst, List, [], ◌∷◌, ◌++◌, arith,
  Bool-cases, ltb, inl, inr, length, take, drop, take-add, drop-drop,
}
use mathlib.Core.List.{append_assoc}
use rtai.Mbx.Ring.{Ring, PutState, bytes_at, tocpy, get_chunk, discard_loop}
use rtai.Mbx.Ring.Inv.{IsValid}
use rtai.Mbx.Ring.Window.{contents, length-window}
use rtai.Mbx.Ring.Put.{Stored, tocpy_bounds, tocpy_pos}
use rtai.Mbx.Ring.Get.{get_chunk-IsValid, contents-get_chunk}

length-bytes_at : (buf : List ℕ) (h n : ℕ) → length (bytes_at buf h n) ≡ n
unfolding bytes_at
length-bytes_at buf h zero = refl
length-bytes_at buf h (suc n) = ap suc (length-bytes_at buf (h + 1) n)

drop-append_left {ℓ} :
    {A : Type ℓ} (d : ℕ) (xs ys : List A) → d ≤ length xs → drop d (xs ++ ys) ≡ drop d xs ++ ys
drop-append_left zero xs ys h = refl
drop-append_left (suc d) [] ys h = absurd (omega arith)
drop-append_left (suc d) (x ∷ xs) ys h = drop-append_left d xs ys (omega arith)

pub drop-append {ℓ} :
    {A : Type ℓ} (e : ℕ) (xs ys : List A)
    → length xs ≤ e
    → drop e (xs ++ ys) ≡ drop (e - length xs) ys
drop-append e [] ys h = ap (λ k. drop k ys) (omega arith)
drop-append zero (x ∷ xs) ys h = absurd (omega arith)
drop-append (suc e) (x ∷ xs) ys h =
    drop-append e xs ys (omega arith) ∙ ap (λ k. drop k ys) (omega arith)

pub length-contents : (r : Ring) → length (contents r) ≡ r.avbs
unfolding contents
length-contents r = length-window r.bufadr r.size r.fbyte r.avbs

-- Giving up the first bytes of the contents takes them off the front.
pub record Discarded (r t : Ring) (d : ℕ) : Type 0 where
  pub valid : IsValid t
  pub same_size : t.size ≡ r.size
  pub left : t.avbs + d ≡ r.avbs
  pub made : t.frbs ≡ r.frbs + d
  pub tail : drop d (contents r) ≡ contents t

get_chunk-Discarded :
    (r : Ring) (k : ℕ)
    → IsValid r
    → r.fbyte + k ≤ r.size
    → k ≤ r.avbs
    → Discarded r (get_chunk r k) k
get_chunk-Discarded r k v room held = record {
  valid = get_chunk-IsValid k v room held;
  same_size = unfold get_chunk in refl;
  left = unfold get_chunk in omega arith;
  made = unfold get_chunk in refl;
  tail =
      ap (drop k) (sym (contents-get_chunk k v room held))
      ∙ drop-append k (bytes_at r.bufadr r.fbyte k) _
          (omega (arith, length-bytes_at r.bufadr r.fbyte k))
      ∙ ap (λ j. drop j (contents (get_chunk r k))) {y = 0}
          (omega (arith, length-bytes_at r.bufadr r.fbyte k));
}

Discarded-refl : (r : Ring) → IsValid r → Discarded r r 0
Discarded-refl r v = record {
  valid = v;
  same_size = refl;
  left = omega arith;
  made = omega arith;
  tail = refl;
}

Discarded-trans :
    {r s t : Ring} (c d : ℕ) → Discarded r s c → Discarded s t d → Discarded r t (c + d)
Discarded-trans {r} c d p q = record {
  valid = q.valid;
  same_size = q.same_size ∙ p.same_size;
  left = omega arith;
  made = omega arith;
  tail = sym (drop-drop c d (contents r)) ∙ ap (drop d) p.tail ∙ q.tail;
}

pub discard_loop-Discarded :
    (fuel : ℕ) (r : Ring) (n : ℕ)
    → IsValid r
    → n ≤ r.size
    → n - r.frbs ≤ fuel
    → Discarded r (discard_loop fuel r n) (n - r.frbs)
unfolding discard_loop
discard_loop-Discarded zero r n v l f =
    subst (Discarded r r) {x = 0} (omega arith) (Discarded-refl r v)
discard_loop-Discarded (suc fuel) r n v l f = elim (Bool-cases (ltb 0 (n - r.frbs))) [
  | inl more ↦
      let k = tocpy (r.size - r.fbyte) (n - r.frbs) r.avbs in
      let b = tocpy_bounds (r.size - r.fbyte) (n - r.frbs) r.avbs in
      let left : 0 < n - r.frbs = ground arith in
      let pos = tocpy_pos (r.size - r.fbyte) (n - r.frbs) r.avbs (omega arith) left (omega arith) in
      let first = get_chunk-Discarded r k v (omega arith) b.2 in
      let next =
        discard_loop-Discarded fuel (get_chunk r k) n first.valid (omega arith) (omega arith) in
      rw (more, discard_loop) (subst (Discarded r _) (omega arith) (Discarded-trans k _ first next))
  | inr done ↦
      rw (done, discard_loop) (subst (Discarded r r) {x = 0} (ground arith) (Discarded-refl r v))
]

-- What is to be left of a message behind the contents of a full buffer.
unfoldable pub kept : PutState → List ℕ
kept s = drop (s.ring.avbs + s.msg_size - s.ring.size) (contents s.ring ++ take s.msg_size s.msg)

pub Stored-kept : {s t : PutState} (c : ℕ) → IsValid s.ring → Stored s t c → kept t ≡ kept s
unfolding kept
Stored-kept {s} {t} c v p = ap₂ drop (omega (arith, p.valid)) (
    ap₂ (λ a b. a ++ take t.msg_size b) p.appended p.rest
    ∙ append_assoc (contents s.ring) (take c s.msg) (take t.msg_size (drop c s.msg))
    ∙ ap (◌++◌ (contents s.ring))
        (sym (take-add c t.msg_size s.msg) ∙ ap (λ k. take k s.msg) (omega arith)))

pub Discarded-kept :
    {r t : Ring} (d : ℕ) (msg : List ℕ) (n : ℕ)
    → IsValid r
    → d ≤ r.avbs + n - r.size
    → Discarded r t d
    → kept (record { ring = t; msg = msg; msg_size = n })
      ≡ kept (record { ring = r; msg = msg; msg_size = n })
unfolding kept
Discarded-kept {r} {t} d msg n v h p =
    let e = r.avbs + n - r.size in
    let c = contents r in
    ap₂ drop (omega (arith, p.valid)) (
      ap (λ a. a ++ take n msg) (sym p.tail)
      ∙ sym (drop-append_left d c (take n msg) (omega (arith, length-contents r, p.left))))
    ∙ drop-drop d (e - d) (c ++ take n msg)
    ∙ ap (λ k. drop k (c ++ take n msg)) (omega arith)
