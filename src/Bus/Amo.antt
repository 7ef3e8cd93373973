-- ===== src/Bus/Amo.antt =====
-- The atomic operations of the bus, on 64-bit patterns.
pub mod Extremes
use hdu_cpu_lab.Common.{ℕ, ◌+◌, Option, none, some, bit_and, bit_or, bit_xor, ltb, if◌then◌else◌}
use hdu_cpu_lab.Common.Words.{u64, lt_signed}

-- enum amo_funct
pub data AmoFunct : Type 0 where
  amolr amosc amoswap amoadd amoxor amoand amoor amomin amomax amominu amomaxu : AmoFunct

-- std::max and std::min of int64_t and of uint64_t: of equal arguments the first is returned.
abbrev pub max_signed : ℕ → ℕ → ℕ
max_signed a b = if lt_signed a b then b else a

abbrev pub min_signed : ℕ → ℕ → ℕ
min_signed a b = if lt_signed b a then b else a

abbrev pub max_unsigned : ℕ → ℕ → ℕ
max_unsigned a b = if ltb a b then b else a

abbrev pub min_unsigned : ℕ → ℕ → ℕ
min_unsigned a b = if ltb b a then b else a

-- The switch of `pa_amo_op`; `none` is the failed assertion of its default case.
unfoldable pub to_write : AmoFunct → ℕ → ℕ → Option ℕ
to_write amolr src res = none
to_write amosc src res = none
to_write amoswap src res = some src
to_write amoadd src res = some (u64 (src + res))
to_write amoxor src res = some (bit_xor src res)
to_write amoand src res = some (bit_and src res)
to_write amoor src res = some (bit_or src res)
to_write amomin src res = some (min_signed src res)
to_write amomax src res = some (max_signed src res)
to_write amominu src res = some (min_unsigned src res)
to_write amomaxu src res = some (max_unsigned src res)
