-- ===== src/Core/Jump.antt =====
-- Jumps and branches of difftest/src/rv_core.hpp.
use hdu_cpu_lab.Common.{
  ℕ, ◌+◌, ◌-◌, ◌%◌, Bool, true, not, Option, none, some, ltb, ◌==◌, if◌then◌else◌,
}
use hdu_cpu_lab.Common.Words.{u64, lt_signed, test_bit}
use hdu_cpu_lab.Common.Run.{Ran, ret, ◌>>◌}
use hdu_cpu_lab.Priv.Codes.{exc_instr_misalign}
use hdu_cpu_lab.Core.State.{Core, Flow, falls_through, jumps, illegal, set_gpr, trap}
use hdu_cpu_lab.Core.Fields.{rd_of, rs1_of, rs2_of, funct3_of, i_imm, b_imm, j_imm}

-- The lowest bit of the immediate is cleared, not that of the target.
abbrev pub jalr_imm : ℕ → ℕ
jalr_imm inst = if test_bit (i_imm inst) 0 then i_imm inst - 1 else i_imm inst

module _ {D : Type 0} where
  -- The jump itself, with the link register, or the trap for a target that is not aligned to 4.
  unfoldable pub link_to : ℕ → ℕ → Core D → Ran (Core D) Flow
  unfolding trap
  link_to rd npc c =
      if not (npc % 4 == 0)
      then (do trap exc_instr_misalign npc; ret falls_through) c
      else ret jumps (record (set_gpr rd (u64 (c.pc + 4)) c) { pc = npc; debug_is_branch = true })

  unfoldable pub exec_jal : ℕ → Core D → Ran (Core D) Flow
  unfolding link_to
  exec_jal inst c = link_to (rd_of inst) (u64 (c.pc + j_imm inst)) c

  unfoldable pub exec_jalr : ℕ → Core D → Ran (Core D) Flow
  unfolding link_to
  exec_jalr inst c = link_to (rd_of inst) (u64 (c.gpr (rs1_of inst) + jalr_imm inst)) c

-- The test of a branch; `none` for an unknown funct3.
unfoldable pub branch_taken : ℕ → ℕ → ℕ → Option Bool
branch_taken funct3 a b =
    if funct3 == 0b000
    then some (a == b)
    else if funct3 == 0b001
    then some (not (a == b))
    else if funct3 == 0b100
    then some (lt_signed a b)
    else if funct3 == 0b101
    then some (not (lt_signed a b))
    else if funct3 == 0b110
    then some (ltb a b)
    else if funct3 == 0b111
    then some (not (ltb a b))
    else none

module _ {D : Type 0} where
  abbrev pub branch_to : ℕ → Core D → Ran (Core D) Flow
  branch_to npc =
      if not (npc % 4 == 0)
      then (do trap exc_instr_misalign npc; ret jumps)
      else (λ c. ret jumps (record c { pc = npc }))

  unfoldable pub exec_branch : ℕ → Core D → Ran (Core D) Flow
  unfolding branch_taken trap
  exec_branch inst c =
      elim (branch_taken (funct3_of inst) (c.gpr (rs1_of inst)) (c.gpr (rs2_of inst))) [
        | none ↦ ret illegal c
        | some taken ↦
            if taken
            then branch_to (u64 (c.pc + b_imm inst)) (record c { debug_is_branch = true })
            else ret falls_through c
      ]
