-- ===== src/Nam2num/RoundTrip.antt =====
-- Names to numbers and back.
use rtai.Base.{
  ℕ, suc, ◌+◌, ◌-◌, ◌*◌, ◌≤◌, ◌<◌, ◌≡◌, ◌≢◌, ap, ◌∙◌, List, [], ◌∷◌, ◌++◌, arith, length, false,
  leb,
}
use mathlib.Core.List.{append-nil}
use rtai.Nam2num.{digit_of, nam2num, num2nam, num2nam_loop, max_nam2num}
use rtai.Nam2num.Value.{
  value_from, normal_name, value_from-lt, nam2num_loop-value_from, num2nam_loop-value_from,
  value_from-num2nam_loop, length-num2nam_loop, num2nam_loop-zero, num2nam_loop-pos, peel, normal,
  digit_of-pos,
}

-- The number of a name of 1 to 6 characters is its value to the base 40, plus 2.
pub nam2num-value_from :
    (c : ℕ) (cs : List ℕ) → length cs ≤ 5 → nam2num (c ∷ cs) ≡ value_from 0 (c ∷ cs) + 2
unfolding nam2num
nam2num-value_from c cs h =
    rw (nam2num_loop-value_from 6 0 0 (c ∷ cs) (omega arith) (omega arith))
      (ground (arith, value_from-lt 6 0 (c ∷ cs) (omega arith)))

nam2num_of_ne_nil : (cs : List ℕ) → 0 < length cs → length cs ≤ 6 → nam2num cs ≡ value_from 0 cs + 2
nam2num_of_ne_nil [] h k = absurd (omega arith)
nam2num_of_ne_nil (c ∷ cs) h k = nam2num-value_from c cs (omega arith)

num2nam_of_lt : (num : ℕ) → 2 ≤ num → num < max_nam2num → num2nam num ≡ num2nam_loop 6 (num - 2) []
unfolding num2nam
num2nam_of_lt num h k =
    let small : leb max_nam2num num ≡ false = ground arith in
    rw small (ap (λ x. num2nam_loop 6 x []) (omega arith))

first_digit :
    (c : ℕ) (cs : List ℕ)
    → length cs ≤ 5
    → digit_of c ≢ 0
    → num2nam_loop 6 (value_from 0 (c ∷ cs)) [] ≡ normal_name (c ∷ cs)
unfolding value_from normal_name
first_digit c cs h nz =
    let r = 5 - length cs in
    num2nam_loop-value_from cs 6 (suc r) (0 * 40 + digit_of c) [] (omega arith) (omega arith)
    ∙ peel 0 c r (normal_name cs ++ []) (omega arith)
    ∙ num2nam_loop-zero r _
    ∙ ap (◌∷◌ (normal c)) (append-nil _)

-- The name that num2nam writes for the number of a name of at most six characters is that name, with
-- letters in upper case and every character other than letters, digits, `_`, `@` and `.` as `$`, if the
-- first character is not the digit 0.
pub num2nam-nam2num :
    (c : ℕ) (cs : List ℕ)
    → length cs ≤ 5
    → c ≢ b'0'
    → num2nam (nam2num (c ∷ cs)) ≡ normal_name (c ∷ cs)
num2nam-nam2num c cs h nz =
    let x = value_from 0 (c ∷ cs) in
    rw (nam2num-value_from c cs h) (
      num2nam_of_lt (x + 2) (omega arith) (omega (arith, value_from-lt 6 0 (c ∷ cs) (omega arith)))
      ∙ ap (λ k. num2nam_loop 6 k []) (omega arith)
      ∙ first_digit c cs h (digit_of-pos c nz))

-- Every number from 3 to the number of "$$$$$$" is the number of the name that num2nam writes.
pub nam2num-num2nam : (num : ℕ) → 3 ≤ num → num + 1 < max_nam2num → nam2num (num2nam num) ≡ num
unfolding value_from
nam2num-num2nam num h k =
    let name = num2nam_loop 6 (num - 2) [] in
    let longest = length-num2nam_loop 6 (num - 2) [] in
    rw (num2nam_of_lt num (omega arith) (omega arith)) (
      nam2num_of_ne_nil name (num2nam_loop-pos 5 (num - 2) (omega arith)) longest
      ∙ omega (arith, value_from-num2nam_loop 6 (num - 2) [] (omega arith)))
