-- ===== src/Mbx/Ring/Window.antt =====
-- The bytes of a mailbox buffer in the order in which they are received.
use rtai.Base.{
  ℕ, zero, suc, ◌+◌, ◌≤◌, ◌<◌, ◌≡◌, ◌⊎◌, refl, ap, ap₂, ◌∙◌, sym, List, [], ◌∷◌, ◌++◌, arith,
  length, length-set, get_or, set, take, get_or-set_self, get_or-set_ne,
}
use mathlib.Core.List.{append_assoc, append-nil}
use rtai.Mbx.Ring.{Ring, memcpy, bytes_at, mod_size}

-- the n bytes from index h on, going round at the end of the buffer
unfoldable pub window : List ℕ → ℕ → ℕ → ℕ → List ℕ
window buf size h zero = []
window buf size h (suc n) = get_or buf h 0 ∷ window buf size (mod_size size (h + 1)) n

unfoldable pub contents : Ring → List ℕ
contents r = window r.bufadr r.size r.fbyte r.avbs

pub length-window : (buf : List ℕ) (size h n : ℕ) → length (window buf size h n) ≡ n
unfolding window
length-window buf size h zero = refl
length-window buf size h (suc n) = ap suc (length-window buf size (mod_size size (h + 1)) n)

-- A byte written just past the window becomes its last.
window-set :
    (buf : List ℕ) (size x n h i : ℕ)
    → size ≤ length buf
    → h < size
    → n < size
    → i < size
    → (i ≡ h + n) ⊎ (i + size ≡ h + n)
    → window (set buf i x) size h (suc n) ≡ window buf size h n ++ x ∷ []
unfolding window
window-set buf size x zero h i hs hh hn hi e =
    let e' : i ≡ h = omega arith in
    rw e' (ap (λ y. y ∷ []) (get_or-set_self buf h x 0 (omega arith)))
window-set buf size x (suc n) h i hs hh hn hi e = ap₂ ◌∷◌ (get_or-set_ne buf x 0 (omega arith)) (
    window-set buf size x n (mod_size size (h + 1)) i hs (ground arith) (omega arith) hi
      (ground arith))

-- A memcpy of k bytes just past the window appends them to it.
pub window-memcpy :
    (buf : List ℕ) (size : ℕ) (msg : List ℕ) (k n h l : ℕ)
    → size ≤ length buf
    → h < size
    → l + k ≤ size
    → n + k ≤ size
    → k ≤ length msg
    → (l ≡ h + n) ⊎ (l + size ≡ h + n)
    → window (memcpy buf l msg k) size h (n + k) ≡ window buf size h n ++ take k msg
unfolding memcpy
window-memcpy buf size msg zero n h l hs hh hl hn hm e =
    ap (window buf size h) (omega arith) ∙ sym (append-nil _)
window-memcpy buf size [] (suc k) n h l hs hh hl hn hm e = absurd (omega arith)
window-memcpy buf size (x ∷ msg) (suc k) n h l hs hh hl hn hm e =
    ap (window (memcpy (set buf l x) (l + 1) msg k) size h) {y = suc n + k} (omega arith)
    ∙ window-memcpy (set buf l x) size msg k (suc n) h (l + 1) (rw (length-set buf l x) hs) hh
        (omega arith) (omega arith) (omega arith) (omega arith)
    ∙ ap (λ w. w ++ take k msg) (window-set buf size x n h l hs hh (omega arith) (omega arith) e)
    ∙ append_assoc (window buf size h n) (x ∷ []) (take k msg)

pub length-memcpy :
    (buf : List ℕ) (l : ℕ) (msg : List ℕ) (k : ℕ) → length (memcpy buf l msg k) ≡ length buf
unfolding memcpy
length-memcpy buf l msg zero = refl
length-memcpy buf l [] (suc k) = refl
length-memcpy buf l (x ∷ msg) (suc k) =
    length-memcpy (set buf l x) (l + 1) msg k ∙ length-set buf l x

-- The bytes that are read from the front, and then what is left, make up the window.
pub bytes_at-window :
    (buf : List ℕ) (size k n h : ℕ)
    → h < size
    → h + k ≤ size
    → bytes_at buf h k ++ window buf size (mod_size size (h + k)) n ≡ window buf size h (k + n)
unfolding bytes_at window
bytes_at-window buf size zero n h hh hk = ap₂ (window buf size) (ground arith) (omega arith)
bytes_at-window buf size (suc k) n h hh hk =
    ap (◌∷◌ (get_or buf h 0)) (rest k hk (bytes_at-window buf size k n (h + 1)))
    ∙ ap (window buf size h) {x = suc (k + n)} (omega arith)
  where
    rest :
        (k : ℕ)
        → h + suc k ≤ size
        → (h + 1 < size
            → h + 1 + k ≤ size
            → bytes_at buf (h + 1) k ++ window buf size (mod_size size (h + 1 + k)) n
              ≡ window buf size (h + 1) (k + n))
        → bytes_at buf (h + 1) k ++ window buf size (mod_size size (h + suc k)) n
          ≡ window buf size (mod_size size (h + 1)) (k + n)
    rest zero hk ih = ap₂ (window buf size) refl (omega arith)
    rest (suc k) hk ih =
        let e : mod_size size (h + 1) ≡ h + 1 = ground arith in
        let e' : h + suc (suc k) ≡ h + 1 + suc k = omega arith in
        rw (e, e') (ih (omega arith) (omega arith))
