-- ===== src/Common/Words.antt =====
-- Machine words as native numbers: casts, bit fields, shifts and signed comparison.
use hdu_cpu_lab.Common.Tests.{ltb, ◌==◌, if◌then◌else◌}
use Prim.Native.Nat.{ℕ, ◌+◌, ◌-◌, ◌*◌, ◌/◌, ◌%◌, ◌^◌}
use mathlib.Core.Bool.{Bool}

abbrev pub u32 : ℕ → ℕ
u32 n = n % 2 ^ 32

abbrev pub u64 : ℕ → ℕ
u64 n = n % 2 ^ 64

-- uint64_t subtraction wraps.
abbrev pub sub64 : ℕ → ℕ → ℕ
sub64 a b = (a + 2 ^ 64 - b) % 2 ^ 64

-- The bit field of `w` bits from bit `lo`.
abbrev pub field : ℕ → ℕ → ℕ → ℕ
field x lo w = x / 2 ^ lo % 2 ^ w

-- Assignment to that bit field: the value is cut to its width, the other bits stay.
abbrev pub set_field : ℕ → ℕ → ℕ → ℕ → ℕ
set_field x lo w v = x / 2 ^ (lo + w) * 2 ^ (lo + w) + v % 2 ^ w * 2 ^ lo + x % 2 ^ lo

-- `x & (1 << i)` as a condition.
abbrev pub test_bit : ℕ → ℕ → Bool
test_bit x i = x / 2 ^ i % 2 == 1

-- A `w`-bit two's complement number widened to 64 bits.
abbrev pub sext : ℕ → ℕ → ℕ
sext w x = let y = x % 2 ^ w in if ltb y (2 ^ (w - 1)) then y else y + 2 ^ 64 - 2 ^ w

-- `a < b` for int64_t: the sign bit is flipped, which shifts the order.
abbrev pub lt_signed : ℕ → ℕ → Bool
lt_signed a b = ltb ((a + 2 ^ 63) % 2 ^ 64) ((b + 2 ^ 63) % 2 ^ 64)
