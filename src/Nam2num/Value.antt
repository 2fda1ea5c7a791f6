-- ===== src/Nam2num/Value.antt =====
-- A name read as a number to the base 40, and the two loops in terms of it.
use native.Mathlib.Nat.{mod-eq_of_lt, pow-suc, mul-le-mul_right}
use rtai.Base.{
  ℕ, zero, suc, ◌+◌, ◌-◌, ◌*◌, ◌/◌, ◌^◌, ◌≤◌, ◌<◌, ◌≡◌, ◌≢◌, ap, ◌∙◌, List, [], refl, ◌∷◌, ◌++◌,
  arith, length, Bool, false, ◌&&◌, ◌||◌, leb, if◌then◌else◌, ◌==◌, Bool-cases, inl, inr,
}
use rtai.Nam2num.{digit_of, char_of, nam2num_loop, num2nam_loop}
use rtai.Nam2num.Digits.{digit_of-lt, digit_of-char_of}

-- v followed by the digits of the characters
unfoldable pub value_from : ℕ → List ℕ → ℕ
value_from v [] = v
value_from v (c ∷ cs) = value_from (v * 40 + digit_of c) cs

-- a lower case letter, an upper case letter, a digit or one of the other characters of names
abbrev is_lower : ℕ → Bool
is_lower c = leb b'a' c && leb c b'z'

abbrev is_allowed : ℕ → Bool
is_allowed c =
    (leb b'A' c && leb c b'Z') || (leb b'0' c && leb c b'9') || c == b'_' || c == b'@' || c == b'.'

-- A character as it comes back: a letter in upper case, 32 below the lower one; the digits and `_`, `@`
-- and `.` as they are; anything else as `$`.
unfoldable pub normal : ℕ → ℕ
normal c = if is_lower c then c - 32 else if is_allowed c then c else b'$'

char_of-digit_of : (c : ℕ) → char_of (digit_of c) ≡ normal c
unfolding char_of digit_of normal
char_of-digit_of c = ground arith

-- Only the digit 0 has the value 0.
pub digit_of-pos : (c : ℕ) → c ≢ b'0' → digit_of c ≢ 0
unfolding digit_of
digit_of-pos c h = ground (arith, h)

unfoldable pub normal_name : List ℕ → List ℕ
normal_name [] = []
normal_name (c ∷ cs) = normal c ∷ normal_name cs

-- One more digit keeps within the same bound.
step_bound : (v d p : ℕ) → d < 40 → (v * 40 + d + 1) * p ≤ (v + 1) * (p * 40)
step_bound v d p h =
    omega (arith, mul-le-mul_right {m = v * 40 + d + 1} {n = v * 40 + 40} p (omega arith))

pub value_from-lt :
    (left v : ℕ) (cs : List ℕ) → length cs ≤ left → value_from v cs < (v + 1) * 40 ^ left
unfolding value_from
value_from-lt zero v [] h = omega arith
value_from-lt (suc left) v [] h =
    rw (pow-suc 40 left) (omega (arith, value_from-lt left v [] (omega arith)))
value_from-lt (suc left) v (c ∷ cs) h = grind (
  arith,
  pow-suc 40 left,
  digit_of-lt c,
  value_from-lt left (v * 40 + digit_of c) cs (omega arith),
  step_bound v (digit_of c) (40 ^ left) (digit_of-lt c),
)
value_from-lt zero v (c ∷ cs) h = absurd (omega arith)

-- No step of the loop wraps round while the value fits in six digits.
pub nam2num_loop-value_from :
    (left v i : ℕ) (cs : List ℕ)
    → length cs ≤ left
    → (v + 1) * 40 ^ left ≤ 40 ^ 6
    → nam2num_loop left v i cs ≡ (value_from v cs, i + length cs)
unfolding value_from nam2num_loop
nam2num_loop-value_from left v i [] h b = ap (λ k. (v, k)) (omega arith)
nam2num_loop-value_from zero v i (c ∷ cs) h b = absurd (omega arith)
nam2num_loop-value_from (suc left) v i (c ∷ cs) h b =
    let d = digit_of c in
    let step : (v * 40 + d + 1) * 40 ^ left ≤ (v + 1) * 40 ^ suc left =
      rw (pow-suc 40 left) (step_bound v d (40 ^ left) (digit_of-lt c)) in
    let small : v * 40 + d < 2 ^ 64 =
      omega (arith, value_from-lt left (v * 40 + d) [] (omega arith)) in
    rw (mod-eq_of_lt small) (
      nam2num_loop-value_from left (v * 40 + d) (i + 1) cs (omega arith) (omega arith)
      ∙ ap (λ k. (value_from (v * 40 + d) cs, k)) (omega arith))

-- A round of num2nam takes off the last digit.
peel_digit :
    (v d r : ℕ) (acc : List ℕ)
    → v * 40 + d ≢ 0
    → d < 40
    → num2nam_loop (suc r) (v * 40 + d) acc ≡ num2nam_loop r v (char_of d ∷ acc)
unfolding num2nam_loop
peel_digit v d r acc h k =
    let quotient : (v * 40 + d) / 40 ≡ v = omega arith in
    let remainder : v * 40 + d - v * 40 ≡ d = omega arith in
    let more : (v * 40 + d == 0) ≡ false = ground arith in
    rw (more, num2nam_loop) (rw (quotient, remainder))

-- the same for the value of a character
pub peel :
    (v c r : ℕ) (acc : List ℕ)
    → v * 40 + digit_of c ≢ 0
    → num2nam_loop (suc r) (v * 40 + digit_of c) acc ≡ num2nam_loop r v (normal c ∷ acc)
peel v c r acc h =
    peel_digit v (digit_of c) r acc h (digit_of-lt c)
    ∙ ap (λ x. num2nam_loop r v (x ∷ acc)) (char_of-digit_of c)

pub num2nam_loop-value_from :
    (cs : List ℕ) (room r v : ℕ) (acc : List ℕ)
    → room ≡ length cs + r
    → v ≢ 0
    → num2nam_loop room (value_from v cs) acc ≡ num2nam_loop r v (normal_name cs ++ acc)
unfolding value_from normal_name
num2nam_loop-value_from [] room r v acc e h = ap (λ k. num2nam_loop k v acc) (omega arith)
num2nam_loop-value_from (c ∷ cs) room r v acc e h =
    num2nam_loop-value_from cs room (suc r) (v * 40 + digit_of c) acc (omega arith) (omega arith)
    ∙ peel v c r (normal_name cs ++ acc) (omega arith)

pub value_from-num2nam_loop :
    (room x : ℕ) (acc : List ℕ)
    → x < 40 ^ room
    → value_from 0 (num2nam_loop room x acc) ≡ value_from x acc
unfolding value_from num2nam_loop
value_from-num2nam_loop zero x acc h = ap (λ k. value_from k acc) (omega arith)
value_from-num2nam_loop (suc room) x acc h = elim (Bool-cases (x == 0)) [
  | inl e ↦ rw (e, num2nam_loop) (ap (λ k. value_from k acc) (ground arith))
  | inr e ↦
      rw (e, num2nam_loop)
        (value_from-num2nam_loop room (x / 40) (char_of (x - x / 40 * 40) ∷ acc)
            (omega (arith, pow-suc 40 room))
          ∙ ap (λ k. value_from k acc)
              (omega (arith, digit_of-char_of (x - x / 40 * 40) (omega arith))))
]

pub length-num2nam_loop :
    (room x : ℕ) (acc : List ℕ) → length (num2nam_loop room x acc) ≤ room + length acc
unfolding num2nam_loop
length-num2nam_loop zero x acc = omega arith
length-num2nam_loop (suc room) x acc = elim (Bool-cases (x == 0)) [
  | inl e ↦ rw (e, num2nam_loop) (omega arith)
  | inr e ↦
      rw (e, num2nam_loop)
        (omega (arith, length-num2nam_loop room (x / 40) (char_of (x - x / 40 * 40) ∷ acc)))
]

-- The characters found before stay.
length-num2nam_loop-ge : (room x : ℕ) (acc : List ℕ) → length acc ≤ length (num2nam_loop room x acc)
unfolding num2nam_loop
length-num2nam_loop-ge zero x acc = omega arith
length-num2nam_loop-ge (suc room) x acc = elim (Bool-cases (x == 0)) [
  | inl e ↦ rw (e, num2nam_loop) (omega arith)
  | inr e ↦
      rw (e, num2nam_loop)
        (omega (arith, length-num2nam_loop-ge room (x / 40) (char_of (x - x / 40 * 40) ∷ acc)))
]

pub num2nam_loop-zero : (room : ℕ) (acc : List ℕ) → num2nam_loop room 0 acc ≡ acc
unfolding num2nam_loop
num2nam_loop-zero zero acc = refl
num2nam_loop-zero (suc room) acc = refl

pub num2nam_loop-pos : (room x : ℕ) → x ≢ 0 → 0 < length (num2nam_loop (suc room) x [])
unfolding num2nam_loop
num2nam_loop-pos room x h =
    let more : (x == 0) ≡ false = ground arith in
    rw (more, num2nam_loop)
      (omega (arith, length-num2nam_loop-ge room (x / 40) (char_of (x - x / 40 * 40) ∷ [])))
