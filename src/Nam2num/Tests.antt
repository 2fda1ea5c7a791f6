-- ===== src/Nam2num/Tests.antt =====
-- Names at concrete inputs.
use rtai.Base.{ℕ, ◌≡◌, refl, List, [], ◌∷◌, arith}
use rtai.Nam2num.{nam2num, num2nam, nam2num_loop, num2nam_loop, digit_of, char_of}
use rtai.Nam2num.Value.{normal_name, normal}
use rtai.Nam2num.RoundTrip.{num2nam-nam2num, nam2num-num2nam}

abbrev sem_1 : List ℕ
sem_1 = b'e' ∷ b'm' ∷ b'_' ∷ b'1' ∷ []

-- RT_SEM_MAGIC (include/rtai_sem.h) is 0x3f83ebb, which its comment calls nam2num("rtsem").
nam2num-rtsem : nam2num (b'r' ∷ b't' ∷ b's' ∷ b'e' ∷ b'm' ∷ []) ≡ 0x43bb348
unfolding nam2num nam2num_loop digit_of
nam2num-rtsem = refl

-- A name that begins with the digit 0 comes back without it.
leading_zero : num2nam (nam2num (b'0' ∷ b'A' ∷ [])) ≡ b'A' ∷ []
unfolding nam2num nam2num_loop digit_of num2nam num2nam_loop char_of
leading_zero = refl

-- 4096000002 is below MAX_NAM2NUM, and no name has it for its number.
no_name : nam2num (num2nam 4096000002) ≡ 2
unfolding nam2num nam2num_loop digit_of num2nam num2nam_loop char_of
no_name = refl

num2nam-nam2num_example : num2nam (nam2num (b's' ∷ sem_1)) ≡ b'S' ∷ b'E' ∷ b'M' ∷ b'_' ∷ b'1' ∷ []
unfolding normal_name normal
num2nam-nam2num_example = num2nam-nam2num b's' sem_1 (omega arith) (omega arith)

nam2num-num2nam_example : nam2num (num2nam 1000000) ≡ 1000000
nam2num-num2nam_example = nam2num-num2nam 1000000 (omega arith) (omega arith)
