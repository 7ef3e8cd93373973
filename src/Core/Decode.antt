-- ===== src/Core/Decode.antt =====
-- Which operation of the ALU an instruction asks for, difftest/src/rv_core.hpp; `none` sets `ri`.
use hdu_cpu_lab.Common.{ℕ, ◌/◌, ◌%◌, ◌^◌, not, ◌&&◌, ◌||◌, Option, none, some, ◌==◌, if◌then◌else◌}
use hdu_cpu_lab.Common.Words.{lt_signed}
use hdu_cpu_lab.Core.Alu.{
  AluOp, alu_add, alu_sub, alu_sll, alu_slt, alu_sltu, alu_xor, alu_srl, alu_sra, alu_or, alu_and,
  alu_mul, alu_mulh, alu_mulhu, alu_mulhsu, alu_div, alu_divu, alu_rem, alu_remu,
}
use hdu_cpu_lab.Core.Fields.{funct3_of, funct7_of, i_imm}

-- The operation and the immediate of OPCODE_OPIMM.
unfoldable pub opimm_op : ℕ → Option (AluOp × ℕ)
opimm_op inst =
    let imm = i_imm inst in
    let funct3 = funct3_of inst in
    let fun6 = funct7_of inst / 2 in
    if funct3 == 0b000
    then some (alu_add, imm)
    else if funct3 == 0b010
    then some (alu_slt, imm)
    else if funct3 == 0b011
    then some (alu_sltu, imm)
    else if funct3 == 0b100
    then some (alu_xor, imm)
    else if funct3 == 0b110
    then some (alu_or, imm)
    else if funct3 == 0b111
    then some (alu_and, imm)
    else if funct3 == 0b001
    then if not (lt_signed imm 64) then none else some (alu_sll, imm)
    else if not (fun6 == 0b000000) && not (fun6 == 0b010000)
    then none
    else some (if fun6 == 0b010000 then alu_sra else alu_srl, imm % 2 ^ 6)

-- The operation and the immediate of OPCODE_OPIMM32.
unfoldable pub opimm32_op : ℕ → Option (AluOp × ℕ)
opimm32_op inst =
    let imm = i_imm inst in
    let funct3 = funct3_of inst in
    let fun7 = funct7_of inst in
    if funct3 == 0b000
    then some (alu_add, imm)
    else if funct3 == 0b001
    then if not (lt_signed imm 64) || not (fun7 == 0b0000000) then none else some (alu_sll, imm)
    else if funct3 == 0b101
    then if not (fun7 == 0b0000000) && not (fun7 == 0b0100000)
      then none
      else some (if fun7 == 0b0100000 then alu_sra else alu_srl, imm % 2 ^ 6)
    else none

-- The operation of OPCODE_OP.
unfoldable pub op_op : ℕ → Option AluOp
op_op inst =
    let funct3 = funct3_of inst in
    let fun7 = funct7_of inst in
    if fun7 == 0b0000000
    then if funct3 == 0b000
      then some alu_add
      else if funct3 == 0b001
      then some alu_sll
      else if funct3 == 0b010
      then some alu_slt
      else if funct3 == 0b011
      then some alu_sltu
      else if funct3 == 0b100
      then some alu_xor
      else if funct3 == 0b101
      then some alu_srl
      else if funct3 == 0b110
      then some alu_or
      else some alu_and
    else if fun7 == 0b0100000
    then if funct3 == 0b000 then some alu_sub else if funct3 == 0b101 then some alu_sra else none
    else if fun7 == 0b0000001
    then if funct3 == 0b000
      then some alu_mul
      else if funct3 == 0b001
      then some alu_mulh
      else if funct3 == 0b010
      then some alu_mulhsu
      else if funct3 == 0b011
      then some alu_mulhu
      else if funct3 == 0b100
      then some alu_div
      else if funct3 == 0b101
      then some alu_divu
      else if funct3 == 0b110
      then some alu_rem
      else some alu_remu
    else none

-- The operation of OPCODE_OP32.
unfoldable pub op32_op : ℕ → Option AluOp
op32_op inst =
    let funct3 = funct3_of inst in
    let fun7 = funct7_of inst in
    if fun7 == 0b0000000
    then if funct3 == 0b000
      then some alu_add
      else if funct3 == 0b001
      then some alu_sll
      else if funct3 == 0b101
      then some alu_srl
      else none
    else if fun7 == 0b0100000
    then if funct3 == 0b000 then some alu_sub else if funct3 == 0b101 then some alu_sra else none
    else if fun7 == 0b0000001
    then if funct3 == 0b000
      then some alu_mul
      else if funct3 == 0b100
      then some alu_div
      else if funct3 == 0b101
      then some alu_divu
      else if funct3 == 0b110
      then some alu_rem
      else if funct3 == 0b111
      then some alu_remu
      else none
    else none
