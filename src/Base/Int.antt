-- ===== src/Base/Int.antt =====
-- Go's signed 64-bit integers: an integer with the wrap-around of each operation written out.
use dash_fabric.Base.{
  ℕ, zero, suc, ◌+◌, ◌-◌, ◌*◌, ◌%◌, Bool, leb, ltb, nat_beq, if◌then◌else◌, ◌≡◌, ◌<◌, arith,
}

-- `negsuc n` is -(n + 1).
pub data ℤ : Type 0 where
  pos : ℕ → ℤ
  negsuc : ℕ → ℤ

abbrev pub pos_part : ℤ → ℕ
pos_part (pos n) = n
pos_part (negsuc n) = 0

abbrev pub neg_part : ℤ → ℕ
neg_part (pos n) = 0
neg_part (negsuc n) = suc n

-- The greatest int64.
abbrev pub max64 : ℕ
max64 = 9223372036854775807

abbrev pub two_pow_64 : ℕ
two_pow_64 = 18446744073709551616

-- x++ and x-- on int64
abbrev pub inc64 : ℤ → ℤ
inc64 (pos n) = if ltb n max64 then pos (suc n) else negsuc max64
inc64 (negsuc zero) = pos 0
inc64 (negsuc (suc n)) = negsuc n

abbrev pub dec64 : ℤ → ℤ
dec64 (pos zero) = negsuc 0
dec64 (pos (suc n)) = pos n
dec64 (negsuc n) = if ltb n max64 then negsuc (suc n) else pos max64

pub inc64-pos : (a : ℤ) (n : ℕ) → n < max64 → a ≡ pos n → inc64 a ≡ pos (suc n)
inc64-pos a n h e = rw e (ground arith)

-- The int64 that a 64-bit pattern stands for, and the pattern of an integer.
abbrev pub of_word : ℕ → ℤ
of_word w = if leb w max64 then pos w else negsuc (two_pow_64 - 1 - w)

abbrev pub to_word : ℤ → ℕ
to_word (pos n) = n % two_pow_64
to_word (negsuc n) = two_pow_64 - 1 - n % two_pow_64

abbrev pub add64 : ℤ → ℤ → ℤ
add64 a b = of_word ((to_word a + to_word b) % two_pow_64)

abbrev pub sub64 : ℤ → ℤ → ℤ
sub64 a b = of_word ((to_word a + (two_pow_64 - to_word b)) % two_pow_64)

abbrev pub mul64 : ℤ → ℤ → ℤ
mul64 a b = of_word ((to_word a * to_word b) % two_pow_64)

-- a counter of type int64 or uint64 that only grows, as its 64-bit pattern
abbrev pub u64 : ℕ → ℕ
u64 n = n % two_pow_64

abbrev pub leb_ℤ : ℤ → ℤ → Bool
leb_ℤ a b = leb (pos_part a + neg_part b) (pos_part b + neg_part a)

abbrev pub ltb_ℤ : ℤ → ℤ → Bool
ltb_ℤ a b = ltb (pos_part a + neg_part b) (pos_part b + neg_part a)

abbrev pub beq_ℤ : ℤ → ℤ → Bool
beq_ℤ a b = nat_beq (pos_part a + neg_part b) (pos_part b + neg_part a)

-- a - b of two clock readings, as a duration that saturates as `time.Time.Sub` does
unfoldable pub since : ℕ → ℕ → ℤ
since now then' =
    if leb then' now
    then (if leb (now - then') max64 then pos (now - then') else pos max64)
    else (if leb (then' - now - 1) max64 then negsuc (then' - now - 1) else negsuc max64)
