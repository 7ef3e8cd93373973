-- ===== src/Bus/Amo/Extremes.antt =====
-- The extremes among the atomic operations of difftest/src/rv_systembus.hpp.
use hdu_cpu_lab.Common.{ℕ, ◌^◌, ◌<◌, ◌≡◌, some, ltb, if◌then◌else◌, arith}
use hdu_cpu_lab.Common.Int.{signed64, ltb_ℤ}
use hdu_cpu_lab.Bus.Amo.{to_write, amomax, amomin, amomaxu, amominu}

-- AMOMAX and AMOMIN store the larger and the smaller operand among the integers that the 64-bit
-- patterns stand for, AMOMAXU and AMOMINU those of the patterns as natural numbers.
pub stores_extreme :
    (src old : ℕ)
    → src < 2 ^ 64
    → old < 2 ^ 64
    → (to_write amomax src old ≡ some (if ltb_ℤ (signed64 src) (signed64 old) then old else src))
      × (to_write amomin src old ≡ some (if ltb_ℤ (signed64 src) (signed64 old) then src else old))
      × (to_write amomaxu src old ≡ some (if ltb src old then old else src))
      × (to_write amominu src old ≡ some (if ltb src old then src else old))
unfolding to_write
stores_extreme src old p q = (ground arith, ground arith, ground arith, ground arith)
