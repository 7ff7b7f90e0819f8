-- ===== src/Base/Words.antt =====
-- Fixed-width integers: uint32, int64 and the low word that `big.Int.Int64` returns.
use livepeer.Base.{ℕ, ◌+◌, ◌-◌, ◌%◌, ◌^◌, ◌<◌, ◌≡◌, arith, ltb, if◌then◌else◌}
use livepeer.Base.Int.{ℤ, pos, negsuc}

abbrev pub u32_mod : ℕ
u32_mod = 2 ^ 32

abbrev pub u64_mod : ℕ
u64_mod = 2 ^ 64

abbrev pub i64_limit : ℕ
i64_limit = 2 ^ 63

-- `atomic.AddUint32(&x, 1)`
unfoldable pub incr32 : ℕ → ℕ
incr32 n = (n + 1) % u32_mod

-- The int64 with the bit pattern `w`.
abbrev pub signed64 : ℕ → ℤ
signed64 w = if ltb w i64_limit then pos w else negsuc (u64_mod - 1 - w)

-- `x.Int64()` of a big.Int that is not negative: its low 64 bits.
unfoldable pub int64_of_big : ℕ → ℤ
int64_of_big n = signed64 (n % u64_mod)

pub int64_of_big_small : (n : ℕ) → n < i64_limit → int64_of_big n ≡ pos n
unfolding int64_of_big
int64_of_big_small n h = ground arith

-- `x.Int64()` of any big.Int: the low 64 bits of its absolute value, negated if it is negative.
unfoldable pub int64_of_int : ℤ → ℤ
unfolding int64_of_big
int64_of_int (pos n) = int64_of_big n
int64_of_int (negsuc n) = signed64 ((u64_mod - (n + 1) % u64_mod) % u64_mod)
