-- ===== src/Core/Formats.antt =====
-- The formats of loads and stores, of 32 bits and compressed, as the architecture lays them out, and
-- the fields that the decoders of difftest/src/rv_core.hpp take out of them.
use hdu_cpu_lab.Common.{ℕ, ◌+◌, ◌*◌, ◌/◌, ◌%◌, ◌^◌, ◌<◌, ◌≡◌, arith}
use hdu_cpu_lab.Core.Fields.{
  opcode_of, rd_of, rs1_of, rs2_of, funct3_of, i_imm, s_imm, opcode_load, opcode_store,
}
use hdu_cpu_lab.Core.Compressed.{
  rvc_opcode, short_low, short_high, long_low, long_high, c_word_imm, c_double_imm, c_lwsp_imm,
  c_ldsp_imm, c_swsp_imm, c_sdsp_imm,
}

-- The instruction formats of loads and stores, of an immediate that is not negative.
abbrev pub i_type : ℕ → ℕ → ℕ → ℕ → ℕ → ℕ
i_type imm rs1 funct3 rd opcode =
    imm * 2 ^ 20 + rs1 * 2 ^ 15 + funct3 * 2 ^ 12 + rd * 2 ^ 7 + opcode

abbrev pub s_type : ℕ → ℕ → ℕ → ℕ → ℕ → ℕ
s_type imm rs2 rs1 funct3 opcode =
    imm / 2 ^ 5 * 2 ^ 25
    + rs2 * 2 ^ 20
    + rs1 * 2 ^ 15
    + funct3 * 2 ^ 12
    + imm % 2 ^ 5 * 2 ^ 7
    + opcode

module _ (imm rs1 f rd opcode : ℕ) (i : imm < 2 ^ 11) (a : rs1 < 32) (b : f < 8) (c : rd < 32)
    (d : opcode < 128) where
  pub i_type-fields :
      (opcode_of (i_type imm rs1 f rd opcode) ≡ opcode)
      × (funct3_of (i_type imm rs1 f rd opcode) ≡ f)
      × (rd_of (i_type imm rs1 f rd opcode) ≡ rd)
      × (rs1_of (i_type imm rs1 f rd opcode) ≡ rs1)
      × (i_imm (i_type imm rs1 f rd opcode) ≡ imm)
  i_type-fields = (omega arith, omega arith, omega arith, omega arith, ground arith)

  pub s_type-fields :
      (opcode_of (s_type imm rd rs1 f opcode) ≡ opcode)
      × (funct3_of (s_type imm rd rs1 f opcode) ≡ f)
      × (rs2_of (s_type imm rd rs1 f opcode) ≡ rd)
      × (rs1_of (s_type imm rd rs1 f opcode) ≡ rs1)
      × (s_imm (s_type imm rd rs1 f opcode) ≡ imm)
  s_type-fields = (omega arith, omega arith, omega arith, omega arith, ground arith)

-- The compressed formats of loads and stores, with their parts from the highest bits down: the
-- function, the high part of the immediate, registers, and the low part of the immediate in between.
-- The three-bit registers are the registers from 8 on.
abbrev pub cl_type : ℕ → ℕ → ℕ → ℕ → ℕ → ℕ
cl_type funct3 high rs1 low rd =
    funct3 * 2 ^ 13 + high * 2 ^ 10 + rs1 * 2 ^ 7 + low * 2 ^ 5 + rd * 2 ^ 2

abbrev pub ci_type : ℕ → ℕ → ℕ → ℕ → ℕ
ci_type funct3 high rd low = funct3 * 2 ^ 13 + high * 2 ^ 12 + rd * 2 ^ 7 + low * 2 ^ 2 + 2

abbrev pub css_type : ℕ → ℕ → ℕ → ℕ
css_type funct3 imm rs2 = funct3 * 2 ^ 13 + imm * 2 ^ 7 + rs2 * 2 ^ 2 + 2

-- The bits of an offset from `lo` on, `n` of them.
abbrev pub bits : ℕ → ℕ → ℕ → ℕ
bits imm lo n = imm / 2 ^ lo % 2 ^ n

-- A compressed load or store with its operands, as the architecture encodes it, and the load or store
-- of 32 bits with the same operands.
pub data Expands : ℕ → ℕ → Type 0 where
  c_lw :
      (imm rs1 rd : ℕ)
      → imm < 128
      → imm % 4 ≡ 0
      → rs1 < 8
      → rd < 8
      → Expands
          (cl_type 0b010 (bits imm 3 3) rs1 (bits imm 2 1 * 2 + bits imm 6 1) rd)
          (i_type imm (8 + rs1) 2 (8 + rd) opcode_load)
  c_ld :
      (imm rs1 rd : ℕ)
      → imm < 256
      → imm % 8 ≡ 0
      → rs1 < 8
      → rd < 8
      → Expands
          (cl_type 0b011 (bits imm 3 3) rs1 (bits imm 6 2) rd)
          (i_type imm (8 + rs1) 3 (8 + rd) opcode_load)
  c_sw :
      (imm rs1 rs2 : ℕ)
      → imm < 128
      → imm % 4 ≡ 0
      → rs1 < 8
      → rs2 < 8
      → Expands
          (cl_type 0b110 (bits imm 3 3) rs1 (bits imm 2 1 * 2 + bits imm 6 1) rs2)
          (s_type imm (8 + rs2) (8 + rs1) 2 opcode_store)
  c_sd :
      (imm rs1 rs2 : ℕ)
      → imm < 256
      → imm % 8 ≡ 0
      → rs1 < 8
      → rs2 < 8
      → Expands
          (cl_type 0b111 (bits imm 3 3) rs1 (bits imm 6 2) rs2)
          (s_type imm (8 + rs2) (8 + rs1) 3 opcode_store)
  c_lwsp :
      (imm rd : ℕ)
      → imm < 256
      → imm % 4 ≡ 0
      → rd < 32
      → Expands
          (ci_type 0b010 (bits imm 5 1) rd (bits imm 2 3 * 4 + bits imm 6 2))
          (i_type imm 2 2 rd opcode_load)
  c_ldsp :
      (imm rd : ℕ)
      → imm < 512
      → imm % 8 ≡ 0
      → rd < 32
      → Expands
          (ci_type 0b011 (bits imm 5 1) rd (bits imm 3 2 * 8 + bits imm 6 3))
          (i_type imm 2 3 rd opcode_load)
  c_swsp :
      (imm rs2 : ℕ)
      → imm < 256
      → imm % 4 ≡ 0
      → rs2 < 32
      → Expands
          (css_type 0b110 (bits imm 2 4 * 4 + bits imm 6 2) rs2)
          (s_type imm rs2 2 2 opcode_store)
  c_sdsp :
      (imm rs2 : ℕ)
      → imm < 512
      → imm % 8 ≡ 0
      → rs2 < 32
      → Expands
          (css_type 0b111 (bits imm 3 3 * 8 + bits imm 6 3) rs2)
          (s_type imm rs2 2 3 opcode_store)

-- The fields that the decoder takes out of the formats.
module _ (f high rs1 low rd : ℕ) (a : f < 8) (b : high < 8) (c : rs1 < 8) (d : low < 4)
    (e : rd < 8) where
  pub cl_type-fields :
      (rvc_opcode (cl_type f high rs1 low rd) ≡ f)
      × (short_high (cl_type f high rs1 low rd) ≡ 8 + rs1)
      × (short_low (cl_type f high rs1 low rd) ≡ 8 + rd)
      × (c_word_imm (cl_type f high rs1 low rd) ≡ high * 8 + low / 2 * 4 + low % 2 * 64)
      × (c_double_imm (cl_type f high rs1 low rd) ≡ high * 8 + low * 64)
  cl_type-fields = (omega arith, omega arith, omega arith, omega arith, omega arith)

module _ (f high rd low : ℕ) (a : f < 8) (b : high < 2) (c : rd < 32) (d : low < 32) where
  pub ci_type-fields :
      (rvc_opcode (ci_type f high rd low) ≡ 16 + f)
      × (long_high (ci_type f high rd low) ≡ rd)
      × (c_lwsp_imm (ci_type f high rd low) ≡ high * 32 + low / 4 * 4 + low % 4 * 64)
      × (c_ldsp_imm (ci_type f high rd low) ≡ high * 32 + low / 8 * 8 + low % 8 * 64)
  ci_type-fields = (omega arith, omega arith, omega arith, omega arith)

module _ (f imm rs2 : ℕ) (a : f < 8) (b : imm < 64) (c : rs2 < 32) where
  pub css_type-fields :
      (rvc_opcode (css_type f imm rs2) ≡ 16 + f)
      × (long_low (css_type f imm rs2) ≡ rs2)
      × (c_swsp_imm (css_type f imm rs2) ≡ imm / 4 * 4 + imm % 4 * 64)
      × (c_sdsp_imm (css_type f imm rs2) ≡ imm / 8 * 8 + imm % 8 * 64)
  css_type-fields = (omega arith, omega arith, omega arith, omega arith)
