-- ===== src/Core/Alu/Laws.antt =====
-- Comparison and 32-bit addition of difftest/src/rv_core.hpp.
use hdu_cpu_lab.Common.{ℕ, ◌^◌, ◌<◌, ◌≡◌, refl, true, false, not, if◌then◌else◌, arith, some}
use hdu_cpu_lab.Common.Int.{signed64, ltb_ℤ}
use hdu_cpu_lab.Common.Words.{lt_signed, sext}
use hdu_cpu_lab.Core.Alu.{alu_slt, alu_add, alu_sub, alu_exec, alu_switch}
use hdu_cpu_lab.Core.Jump.{branch_taken}

lt_signed-signed64 :
    (a b : ℕ) → a < 2 ^ 64 → b < 2 ^ 64 → lt_signed a b ≡ ltb_ℤ (signed64 a) (signed64 b)
lt_signed-signed64 a b p q = ground arith

-- SLT, BLT and BGE compare the operands as the integers that their patterns stand for.
pub compares_signed :
    (a b : ℕ)
    → a < 2 ^ 64
    → b < 2 ^ 64
    → (alu_exec a b alu_slt false ≡ some (if ltb_ℤ (signed64 a) (signed64 b) then 1 else 0))
      × (branch_taken 0b100 a b ≡ some (ltb_ℤ (signed64 a) (signed64 b)))
      × (branch_taken 0b101 a b ≡ some (not (ltb_ℤ (signed64 a) (signed64 b))))
unfolding alu_exec alu_switch branch_taken
compares_signed a b p q = let e = lt_signed-signed64 a b p q in rw e (refl, refl, refl)

-- ADDW and SUBW of the operands undo one another, up to the sign extension of 32 bits.
addw_then_subw :
    (a b c : ℕ)
    → a < 2 ^ 64
    → b < 2 ^ 64
    → alu_exec a b alu_add true ≡ some c
    → alu_exec c b alu_sub true ≡ some (sext 32 a)
unfolding alu_exec alu_switch
addw_then_subw a b c p q h = ground arith
