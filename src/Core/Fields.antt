-- ===== src/Core/Fields.antt =====
-- The instruction formats of union rv_instr and the operation codes of difftest/src/rv_common.hpp.
use hdu_cpu_lab.Common.{ℕ, ◌+◌, ◌*◌, ◌^◌}
use hdu_cpu_lab.Common.Words.{field, sext}

abbrev pub opcode_of : ℕ → ℕ
opcode_of inst = field inst 0 7

abbrev pub rd_of : ℕ → ℕ
rd_of inst = field inst 7 5

abbrev pub funct3_of : ℕ → ℕ
funct3_of inst = field inst 12 3

abbrev pub rs1_of : ℕ → ℕ
rs1_of inst = field inst 15 5

abbrev pub rs2_of : ℕ → ℕ
rs2_of inst = field inst 20 5

abbrev pub funct7_of : ℕ → ℕ
funct7_of inst = field inst 25 7

-- The immediates, widened with their sign to 64 bits.
abbrev pub i_imm : ℕ → ℕ
i_imm inst = sext 12 (field inst 20 12)

abbrev pub s_imm : ℕ → ℕ
s_imm inst = sext 12 (field inst 25 7 * 2 ^ 5 + field inst 7 5)

abbrev pub b_imm : ℕ → ℕ
b_imm inst = sext 13 (
    field inst 31 1 * 2 ^ 12
    + field inst 7 1 * 2 ^ 11
    + field inst 25 6 * 2 ^ 5
    + field inst 8 4 * 2)

abbrev pub u_imm : ℕ → ℕ
u_imm inst = sext 32 (field inst 12 20 * 2 ^ 12)

abbrev pub j_imm : ℕ → ℕ
j_imm inst = sext 21 (
    field inst 31 1 * 2 ^ 20
    + field inst 12 8 * 2 ^ 12
    + field inst 20 1 * 2 ^ 11
    + field inst 21 10 * 2)

-- enum rv64i_opcode
abbrev pub opcode_lui : ℕ
opcode_lui = 0b0110111

abbrev pub opcode_auipc : ℕ
opcode_auipc = 0b0010111

abbrev pub opcode_jal : ℕ
opcode_jal = 0b1101111

abbrev pub opcode_jalr : ℕ
opcode_jalr = 0b1100111

abbrev pub opcode_branch : ℕ
opcode_branch = 0b1100011

abbrev pub opcode_load : ℕ
opcode_load = 0b0000011

abbrev pub opcode_store : ℕ
opcode_store = 0b0100011

abbrev pub opcode_opimm : ℕ
opcode_opimm = 0b0010011

abbrev pub opcode_opimm32 : ℕ
opcode_opimm32 = 0b0011011

abbrev pub opcode_op : ℕ
opcode_op = 0b0110011

abbrev pub opcode_op32 : ℕ
opcode_op32 = 0b0111011

abbrev pub opcode_fence : ℕ
opcode_fence = 0b0001111

abbrev pub opcode_system : ℕ
opcode_system = 0b1110011

abbrev pub opcode_amo : ℕ
opcode_amo = 0b0101111
