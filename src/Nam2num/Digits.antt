-- ===== src/Nam2num/Digits.antt =====
-- The digits of a name to the base 40.
use rtai.Base.{ℕ, ◌<◌, ◌≡◌, arith}
use rtai.Nam2num.{digit_of, char_of}

-- Every character has a value below 40.
pub digit_of-lt : (c : ℕ) → digit_of c < 40
unfolding digit_of
digit_of-lt c = ground arith

-- The characters that num2nam writes are read back as the values that they stand for.
pub digit_of-char_of : (d : ℕ) → d < 40 → digit_of (char_of d) ≡ d
unfolding digit_of char_of
digit_of-char_of d h = ground arith
