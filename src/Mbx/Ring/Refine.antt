-- ===== src/Mbx/Ring/Refine.antt =====
-- What a mailbox promises of its bytes: a bounded queue, which the circular buffer implements.
use rtai.Base.{
  ℕ, ◌+◌, ◌-◌, ◌≡◌, refl, ap, ap₂, ◌∙◌, List, [], ◌∷◌, ◌++◌, arith, min, length, length-append,
  take, drop, take-length, true, zero, suc,
}
use rtai.Mbx.Ring.{Ring, mbxput, mbxget, mbxovrwrput, mbxevdrp}
use rtai.Mbx.Ring.Inv.{IsValid}
use rtai.Mbx.Ring.Window.{contents}
use rtai.Mbx.Ring.Put.{mbxput-Stored}
use rtai.Mbx.Ring.Get.{mbxget-Fetched, size-mbxget}
use rtai.Mbx.Ring.Peek.{mbxevdrp-mbxget}
use rtai.Mbx.Ring.Overwrite.{contents-mbxovrwrput, size-mbxovrwrput}
use rtai.Mbx.Ring.Discard.{length-contents}

-- What a user asks of the buffer, with whole messages.
pub data Request : Type 0 where
  put : List ℕ → Request
  get : ℕ → Request
  peek : ℕ → Request
  overwrite : List ℕ → Request

-- The bytes handed over, and the number of bytes that were not.
abbrev pub Reply : Type 0
Reply = List ℕ × ℕ

-- The buffer itself. A peek is one in kernel space.
pub serve : Request → Ring → Reply × Ring
serve (put msg) r = let p = mbxput r msg (length msg) in (([], p.msg_size), p.ring)
serve (get n) r = let g = mbxget r n in ((g.out, g.msg_size), g.ring)
serve (peek n) r = let p = mbxevdrp r n true in ((p.out, p.msg_size), r)
serve (overwrite msg) r = let p = mbxovrwrput r msg (length msg) in (([], p.msg_size), p.ring)

-- A queue of at most `size` bytes.
pub queue_serve : ℕ → Request → List ℕ → Reply × List ℕ
queue_serve size (put msg) q =
    (([], length msg - (size - length q)), q ++ take (size - length q) msg)
queue_serve size (get n) q = ((take n q, n - length q), drop n q)
queue_serve size (peek n) q = ((take n q, n - length q), q)
queue_serve size (overwrite msg) q = (([], 0), drop (length q + length msg - size) (q ++ msg))

pub replies : List Request → Ring → List Reply
replies [] r = []
replies (q ∷ qs) r = (serve q r).0 ∷ replies qs (serve q r).1

pub queue_replies : ℕ → List Request → List ℕ → List Reply
queue_replies size [] b = []
queue_replies size (q ∷ qs) b =
    (queue_serve size q b).0 ∷ queue_replies size qs (queue_serve size q b).1

-- What is there to be taken counts.
take-min : (n : ℕ) (xs : List ℕ) → take (min (length xs) n) xs ≡ take n xs
take-min zero xs = ap (λ k. take k xs) {y = 0} (omega arith)
take-min (suc n) [] = ap (λ k. take k []) {y = 0} (omega arith)
take-min (suc n) (x ∷ xs) =
    ap (λ k. take k (x ∷ xs)) {y = suc (min (length xs) n)} (omega arith)
    ∙ ap (◌∷◌ x) (take-min n xs)

-- One request: the same reply, and states that go on representing each other.
record Simulates (q : Request) (r : Ring) : Type 0 where
  valid : IsValid (serve q r).1
  size : (serve q r).1.size ≡ r.size
  reply : (serve q r).0 ≡ (queue_serve r.size q (contents r)).0
  next : contents (serve q r).1 ≡ (queue_serve r.size q (contents r)).1

-- The two parts of a list, by the length of the second.
parts :
    (xs ys : List ℕ) (n : ℕ)
    → length ys ≡ length (xs ++ ys) - n
    → (xs ≡ take n (xs ++ ys)) × (ys ≡ drop n (xs ++ ys))
parts [] ys zero h = (refl, refl)
parts [] [] (suc n) h = (refl, refl)
parts [] (y ∷ ys) (suc n) h = absurd (omega arith)
parts (x ∷ xs) ys zero h = absurd (omega (arith, length-append xs ys))
parts (x ∷ xs) ys (suc n) h = let p = parts xs ys n (omega arith) in (ap (◌∷◌ x) p.0, p.1)

module _ (r : Ring) (v : IsValid r) where
  fetched :
      (n : ℕ)
      → ((mbxget r n).out ≡ take n (contents r))
        × (contents (mbxget r n).ring ≡ drop n (contents r))
        × ((mbxget r n).msg_size ≡ n - length (contents r))
  fetched n =
      let g = mbxget-Fetched r n v in
      let moved = g.1 in
      let here = length-contents (mbxget r n).ring in
      let p =
        parts (mbxget r n).out (contents (mbxget r n).ring) n
          (rw moved (omega (arith, length-contents r, here))) in
      (p.0 ∙ ap (take n) moved, p.1 ∙ ap (drop n) moved, omega (arith, length-contents r))

  serve-Simulates : (q : Request) → Simulates q r
  unfolding serve queue_serve
  serve-Simulates (put msg) =
      let s = mbxput-Stored r msg (length msg) v (omega arith) in
      let room : r.frbs ≡ r.size - length (contents r) = omega (arith, length-contents r, v) in
      record {
        valid = s.valid;
        size = s.same_size;
        reply = ap (λ k. ([], k)) (omega (arith, s));
        next =
            s.appended ∙ ap (◌++◌ (contents r)) (take-min r.frbs msg ∙ ap (λ k. take k msg) room);
      }
  serve-Simulates (get n) =
      let f = fetched n in
      record {
        valid = (mbxget-Fetched r n v).0;
        size = size-mbxget r n v;
        reply = ap₂ (λ a b. (a, b)) f.0 f.2;
        next = f.1;
      }
  serve-Simulates (peek n) =
      let f = fetched n in
      let e = mbxevdrp-mbxget r n in
      record {
        valid = v;
        size = refl;
        reply = ap₂ (λ a b. (a, b)) (e.0 ∙ f.0) (e.1 ∙ f.2);
        next = refl;
      }
  serve-Simulates (overwrite msg) =
      let o = contents-mbxovrwrput r msg (length msg) v (omega arith) in
      record {
        valid = o.0;
        size = size-mbxovrwrput r msg (length msg) v (omega arith);
        reply = ap (λ k. ([], k)) o.2;
        next =
            o.1
            ∙ ap₂ drop (omega (arith, length-contents r))
                (ap (◌++◌ (contents r)) (take-length msg));
      }

-- A mailbox buffer is a bounded queue of bytes: for every sequence of puts, gets, peeks in kernel
-- space and overwrites, a valid buffer hands out the same bytes and reports the same numbers of
-- bytes not handled as a queue of at most `size` bytes that begins with the buffer's contents.
pub replies-queue_replies :
    (qs : List Request) (r : Ring) → IsValid r → replies qs r ≡ queue_replies r.size qs (contents r)
unfolding replies queue_replies
replies-queue_replies [] r v = refl
replies-queue_replies (q ∷ qs) r v =
    let s = serve-Simulates r v q in
    ap₂ (◌∷◌) s.reply (
      replies-queue_replies qs (serve q r).1 s.valid
      ∙ ap₂ (λ n b. queue_replies n qs b) s.size s.next)
