-- ===== src/Word.antt =====
-- C's 32-bit `int`, as its bit pattern: a number below 2 ^ 32. The source is compiled for targets
-- where signed arithmetic wraps, and by itself, so every operation here wraps.
use rvcc.Prelude.{ℕ, ◌+◌, ◌-◌, ◌*◌, ◌/◌, ◌%◌, ◌^◌, ◌<◌, Bool, ltb, if◌then◌else◌}

abbrev pub word_mod : ℕ
word_mod = 2 ^ 32

abbrev pub sign_bit : ℕ
sign_bit = 2 ^ 31

abbrev pub IsWord : ℕ → Type 0
IsWord a = a < word_mod

-- a + b, a - b, -a
abbrev pub add32 : ℕ → ℕ → ℕ
add32 a b = (a + b) % word_mod

abbrev pub sub32 : ℕ → ℕ → ℕ
sub32 a b = (a + (word_mod - b)) % word_mod

abbrev pub neg32 : ℕ → ℕ
neg32 a = (word_mod - a) % word_mod

-- a << k
abbrev pub shl32 : ℕ → ℕ → ℕ
shl32 a k = a * 2 ^ k % word_mod

-- a >> k, which copies the sign
abbrev pub sar32 : ℕ → ℕ → ℕ
sar32 a k = if ltb a sign_bit then a / 2 ^ k else word_mod - 2 ^ (32 - k) + a / 2 ^ k

-- a & (2^k - 1), by the number of values that the mask lets through
abbrev pub mask32 : ℕ → ℕ → ℕ
mask32 a values = a % values

-- a < b, on signed values
abbrev pub slt32 : ℕ → ℕ → Bool
slt32 a b = ltb ((a + sign_bit) % word_mod) ((b + sign_bit) % word_mod)
