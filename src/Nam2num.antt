-- ===== src/Nam2num.antt =====
-- include/rtai_nam2num.h: names of up to six characters as unsigned longs, and back.
-- A name is the list of its character codes up to the terminating zero, all of them ASCII, for
-- which islower, isupper and isdigit are the usual ranges. `unsigned long` has 64 bits.
pub mod Digits
pub mod Value
pub mod RoundTrip
mod Tests
use rtai.Base.{
  ℕ, zero, suc, ◌+◌, ◌-◌, ◌*◌, ◌/◌, ◌%◌, ◌^◌, List, [], ◌∷◌, ◌++◌, Bool, true, false, ◌&&◌, leb,
  ltb, ◌==◌, if◌then◌else◌,
}

-- the value of one character
pub digit_of : ℕ → ℕ
digit_of c =
    if leb b'a' c && leb c b'z'
    then c + 10 - b'a'
    else if leb b'A' c && leb c b'Z'
    then c + 10 - b'A'
    else if leb b'0' c && leb c b'9'
    then c - b'0'
    else if c == b'_'
    then 36
    else if c == b'@'
    then 37
    else if c == b'.'
    then 38
    else 39

-- The loop of nam2num: `left` rounds are to come, of 6. The result is retval with the last i.
pub nam2num_loop : ℕ → ℕ → ℕ → List ℕ → ℕ × ℕ
nam2num_loop left retval i [] = (retval, i)
nam2num_loop zero retval i (c ∷ name) = (retval, i)
nam2num_loop (suc left) retval i (c ∷ name) =
    nam2num_loop left ((retval * 40 + digit_of c) % 2 ^ 64) (i + 1) name

pub nam2num : List ℕ → ℕ
nam2num name =
    let (retval, i) = nam2num_loop 6 0 0 name in
    if ltb 0 i then (retval + 2) % 2 ^ 64 else 0xFFFFFFFF

abbrev pub max_nam2num : ℕ
max_nam2num = 4096000003

-- the character that num2nam writes for a value
pub char_of : ℕ → ℕ
char_of c =
    if ltb c 36
    then (if ltb 9 c then c + b'A' - 10 else c + b'0')
    else if c == 36
    then b'_'
    else if c == 37
    then b'@'
    else if c == 38
    then b'.'
    else b'$'

-- The loop of num2nam. `room` is i + 1, the places left; the characters stand at name[i + 1 .. 5].
pub num2nam_loop : ℕ → ℕ → List ℕ → List ℕ
num2nam_loop zero num name = name
num2nam_loop (suc room) num name = elim (num == 0) [
  | true ↦ name
  | false ↦ num2nam_loop room (num / 40) (char_of (num - num / 40 * 40) ∷ name)
]

-- "|null|" is what strncpy stores; otherwise the characters found are moved to the front. A num
-- below 2 wraps round when 2 is subtracted.
pub num2nam : ℕ → List ℕ
num2nam num =
    if leb max_nam2num num
    then b'|' ∷ b'n' ∷ b'u' ∷ b'l' ∷ b'l' ∷ b'|' ∷ []
    else num2nam_loop 6 ((num + 2 ^ 64 - 2) % 2 ^ 64) []
