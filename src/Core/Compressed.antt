-- ===== src/Core/Compressed.antt =====
-- The compressed instructions of difftest/src/rv_core.hpp, the cases behind `hasCExt`.
use hdu_cpu_lab.Common.{ℕ, ◌+◌, ◌-◌, ◌*◌, ◌%◌, ◌^◌, Bool, true, false, not, ◌==◌, if◌then◌else◌}
use hdu_cpu_lab.Common.Words.{u64, field, sext}
use hdu_cpu_lab.Common.Run.{Ran, ret, ◌>>◌}
use hdu_cpu_lab.Device.{MmioDev}
use hdu_cpu_lab.Priv.{on_csrs}
use hdu_cpu_lab.Priv.Codes.{exc_instr_misalign}
use hdu_cpu_lab.Priv.Registers.{Config, ebreak}
use hdu_cpu_lab.Core.Alu.{
  AluOp, alu_add, alu_sub, alu_sll, alu_xor, alu_srl, alu_sra, alu_or, alu_and, alu_exec,
}
use hdu_cpu_lab.Core.State.{
  Core, Flow, falls_through, jumps, illegal, set_gpr, on_priv, writes, alu_writes, trap, load_as,
  store_as,
}

-- The parts of an immediate never overlap, so that `+` stands for the source's `|`.
abbrev pub binary_concat : ℕ → ℕ → ℕ → ℕ → ℕ
binary_concat value r l shift = field value l (r - l + 1) * 2 ^ shift

abbrev pub rvc_opcode : ℕ → ℕ
rvc_opcode inst = inst % 4 * 8 + field inst 13 3

-- The registers 8 to 15 of the short fields, and the long fields.
abbrev pub short_low : ℕ → ℕ
short_low inst = 8 + binary_concat inst 4 2 0

abbrev pub short_high : ℕ → ℕ
short_high inst = 8 + binary_concat inst 9 7 0

abbrev pub long_low : ℕ → ℕ
long_low inst = binary_concat inst 6 2 0

abbrev pub long_high : ℕ → ℕ
long_high inst = binary_concat inst 11 7 0

-- The immediates. The six bits that most instructions share come without and with their sign.
abbrev pub c_uimm6 : ℕ → ℕ
c_uimm6 inst = binary_concat inst 12 12 5 + binary_concat inst 6 2 0

abbrev pub c_imm6 : ℕ → ℕ
c_imm6 inst = sext 6 (c_uimm6 inst)

abbrev pub c_addi4spn_imm : ℕ → ℕ
c_addi4spn_imm inst =
    binary_concat inst 12 11 4
    + binary_concat inst 10 7 6
    + binary_concat inst 6 6 2
    + binary_concat inst 5 5 3

abbrev pub c_word_imm : ℕ → ℕ
c_word_imm inst = binary_concat inst 6 6 2 + binary_concat inst 5 5 6 + binary_concat inst 12 10 3

abbrev pub c_double_imm : ℕ → ℕ
c_double_imm inst = binary_concat inst 6 5 6 + binary_concat inst 12 10 3

abbrev pub c_addi16sp_imm : ℕ → ℕ
c_addi16sp_imm inst = sext 10 (
    binary_concat inst 12 12 9
    + binary_concat inst 6 6 4
    + binary_concat inst 5 5 6
    + binary_concat inst 4 3 7
    + binary_concat inst 2 2 5)

abbrev pub c_lui_imm : ℕ → ℕ
c_lui_imm inst = sext 18 (binary_concat inst 12 12 17 + binary_concat inst 6 2 12)

abbrev pub c_lwsp_imm : ℕ → ℕ
c_lwsp_imm inst = binary_concat inst 6 4 2 + binary_concat inst 3 2 6 + binary_concat inst 12 12 5

abbrev pub c_ldsp_imm : ℕ → ℕ
c_ldsp_imm inst = binary_concat inst 6 5 3 + binary_concat inst 4 2 6 + binary_concat inst 12 12 5

abbrev pub c_swsp_imm : ℕ → ℕ
c_swsp_imm inst = binary_concat inst 12 9 2 + binary_concat inst 8 7 6

abbrev pub c_sdsp_imm : ℕ → ℕ
c_sdsp_imm inst = binary_concat inst 12 10 3 + binary_concat inst 9 7 6

abbrev pub c_j_imm : ℕ → ℕ
c_j_imm inst = sext 12 (
    binary_concat inst 12 12 11
    + binary_concat inst 11 11 4
    + binary_concat inst 10 9 8
    + binary_concat inst 8 8 10
    + binary_concat inst 7 7 6
    + binary_concat inst 6 6 7
    + binary_concat inst 5 3 1
    + binary_concat inst 2 2 5)

abbrev pub c_b_imm : ℕ → ℕ
c_b_imm inst = sext 9 (
    binary_concat inst 12 12 8
    + binary_concat inst 11 10 3
    + binary_concat inst 6 5 6
    + binary_concat inst 4 3 1
    + binary_concat inst 2 2 5)

module _ {D : Type 0} where
  abbrev pub c_alu_op : AluOp → Bool → ℕ → ℕ → Core D → Ran (Core D) Flow
  c_alu_op op op_32 rd b c = alu_writes rd (alu_exec (c.gpr rd) b op op_32) c

  -- Nothing is written for an immediate of 0.
  abbrev pub unless_zero : ℕ → (Core D → Ran (Core D) Flow) → Core D → Ran (Core D) Flow
  unless_zero imm m = if imm == 0 then ret falls_through else m

  -- OPCODE_C_ALU
  unfoldable pub exec_c_alu : ℕ → Core D → Ran (Core D) Flow
  exec_c_alu inst c =
      let rs1 = short_high inst in
      let rs2 = short_low inst in
      let funct2 = field inst 5 2 in
      let instr_12 = field inst 12 1 == 1 in
      if field inst 11 1 == 0
      then unless_zero (c_uimm6 inst)
          (c_alu_op (if field inst 10 1 == 1 then alu_sra else alu_srl) false rs1 (c_uimm6 inst)) c
      else if field inst 10 1 == 0
      then c_alu_op alu_and false rs1 (c_imm6 inst) c
      else if funct2 == 0b00
      then c_alu_op alu_sub instr_12 rs1 (c.gpr rs2) c
      else if funct2 == 0b01
      then c_alu_op (if instr_12 then alu_add else alu_xor) instr_12 rs1 (c.gpr rs2) c
      else if funct2 == 0b10
      then if instr_12 then ret illegal c else c_alu_op alu_or false rs1 (c.gpr rs2) c
      else if instr_12
      then ret illegal c
      else c_alu_op alu_and false rs1 (c.gpr rs2) c

  -- A jump without the alignment test.
  abbrev pub c_jump : ℕ → Core D → Ran (Core D) Flow
  c_jump imm c = ret jumps (record c { pc = u64 (c.pc + imm) })

  -- A jump to a register, with the address behind the instruction in register 1 for JALR.
  unfoldable pub c_jump_to : Bool → ℕ → Core D → Ran (Core D) Flow
  c_jump_to link target c =
      let npc = target - target % 2 in
      if not (npc % 4 == 0)
      then (do trap exc_instr_misalign npc; ret falls_through) c
      else ret jumps (record (if link then set_gpr 1 (u64 (c.pc + 2)) c else c) { pc = npc })

  -- OPCODE_C_JR_MV_EB_JALR_ADD
  unfoldable pub exec_c_jr : ℕ → Core D → Ran (Core D) Flow
  unfolding c_jump_to
  exec_c_jr inst c =
      let rs2 = long_low inst in
      let rs1 = long_high inst in
      if field inst 12 1 == 1
      then if rs2 == 0
        then if rs1 == 0
          then (do on_priv (on_csrs (ebreak c.pc)); ret falls_through) c
          else c_jump_to true (c.gpr rs1) c
        else c_alu_op alu_add false rs1 (c.gpr rs2) c
      else if rs2 == 0
      then if rs1 == 0 then ret illegal c else c_jump_to false (c.gpr rs1) c
      else writes rs1 (c.gpr rs2) c

module _ {D : Type 0} ⦃dev : MmioDev D⦄ where
  -- The switch on rvc_opcode.
  unfoldable pub exec_rvc : Config → ℕ → Core D → Ran (Core D) Flow
  unfolding exec_c_alu exec_c_jr
  exec_rvc config inst c =
      let op = rvc_opcode inst in
      let rd = long_high inst in
      if op == 0b00000
      then if c_addi4spn_imm inst == 0
        then ret illegal c
        else writes (short_low inst) (u64 (c.gpr 2 + c_addi4spn_imm inst)) c
      else if op == 0b00010
      then load_as 4 (sext 32) (short_low inst) (u64 (c.gpr (short_high inst) + c_word_imm inst)) c
      else if op == 0b00011
      then load_as 8 (λ x. x) (short_low inst) (u64 (c.gpr (short_high inst) + c_double_imm inst)) c
      else if op == 0b00110
      then store_as config 4 (u64 (c.gpr (short_high inst) + c_word_imm inst))
          (c.gpr (short_low inst)) c
      else if op == 0b00111
      then store_as config 8 (u64 (c.gpr (short_high inst) + c_double_imm inst))
          (c.gpr (short_low inst)) c
      else if op == 0b01000
      then unless_zero (c_imm6 inst) (c_alu_op alu_add false rd (c_imm6 inst)) c
      else if op == 0b01001
      then c_alu_op alu_add true rd (c_imm6 inst) c
      else if op == 0b01010
      then writes rd (c_imm6 inst) c
      else if op == 0b01011
      then if rd == 2
        then unless_zero (c_addi16sp_imm inst) (writes rd (u64 (c.gpr rd + c_addi16sp_imm inst))) c
        else unless_zero (c_lui_imm inst) (writes rd (c_lui_imm inst)) c
      else if op == 0b01100
      then exec_c_alu inst c
      else if op == 0b01101
      then c_jump (c_j_imm inst) c
      else if op == 0b01110
      then if c.gpr (short_high inst) == 0 then c_jump (c_b_imm inst) c else ret falls_through c
      else if op == 0b01111
      then if c.gpr (short_high inst) == 0 then ret falls_through c else c_jump (c_b_imm inst) c
      else if op == 0b10000
      then unless_zero (c_uimm6 inst) (c_alu_op alu_sll false rd (c_uimm6 inst)) c
      else if op == 0b10010
      then load_as 4 (sext 32) rd (u64 (c.gpr 2 + c_lwsp_imm inst)) c
      else if op == 0b10011
      then load_as 8 (λ x. x) rd (u64 (c.gpr 2 + c_ldsp_imm inst)) c
      else if op == 0b10100
      then exec_c_jr inst c
      else if op == 0b10110
      then store_as config 4 (u64 (c.gpr 2 + c_swsp_imm inst)) (c.gpr (long_low inst)) c
      else if op == 0b10111
      then store_as config 8 (u64 (c.gpr 2 + c_sdsp_imm inst)) (c.gpr (long_low inst)) c
      else ret illegal c
