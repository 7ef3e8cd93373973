-- ===== src/Core/Expand.antt =====
-- The compressed loads and stores of difftest/src/rv_core.hpp beside the loads and stores of 32 bits.
use hdu_cpu_lab.Common.{ℕ, ◌+◌, ◌*◌, ◌^◌, ◌<◌, ◌≡◌, ◌∙◌, refl, sym, ap, arith}
use hdu_cpu_lab.Common.Words.{u64}
use hdu_cpu_lab.Common.Run.{Ran}
use hdu_cpu_lab.Device.{MmioDev}
use hdu_cpu_lab.Priv.Registers.{Config}
use hdu_cpu_lab.Core.Fields.{
  opcode_of, rd_of, rs1_of, rs2_of, funct3_of, i_imm, s_imm, opcode_load, opcode_store,
}
use hdu_cpu_lab.Core.State.{Core, Flow, load_switch, store_switch}
use hdu_cpu_lab.Core.{execute}
use hdu_cpu_lab.Core.Compressed.{
  exec_rvc, rvc_opcode, short_low, short_high, long_low, long_high, c_word_imm, c_double_imm,
  c_lwsp_imm, c_ldsp_imm, c_swsp_imm, c_sdsp_imm,
}
use hdu_cpu_lab.Core.Formats.{
  i_type, s_type, bits, i_type-fields, s_type-fields, cl_type-fields, ci_type-fields,
  css_type-fields, Expands, c_lw, c_ld, c_sw, c_sd, c_lwsp, c_ldsp, c_swsp, c_sdsp,
}

module _ {D : Type 0} ⦃dev : MmioDev D⦄ (config : Config) (c : Core D) where
  execute_load :
      (w : ℕ)
      → opcode_of w ≡ opcode_load
      → execute config w c
        ≡ load_switch (funct3_of w) (rd_of w) (u64 (c.gpr (rs1_of w) + i_imm w)) c
  execute_load w e = unfold execute in rw (e, execute)

  execute_store :
      (w : ℕ)
      → opcode_of w ≡ opcode_store
      → execute config w c
        ≡ store_switch config (funct3_of w) (u64 (c.gpr (rs1_of w) + s_imm w)) (c.gpr (rs2_of w)) c
  execute_store w e = unfold execute in rw (e, execute)

  abbrev load_at : ℕ → ℕ → ℕ → ℕ → Ran (Core D) Flow
  load_at f rd rs1 imm = load_switch f rd (u64 (c.gpr rs1 + imm)) c

  abbrev store_at : ℕ → ℕ → ℕ → ℕ → Ran (Core D) Flow
  store_at f rs2 rs1 imm = store_switch config f (u64 (c.gpr rs1 + imm)) (c.gpr rs2) c

  loads :
      (imm rs1 f rd : ℕ)
      → imm < 2 ^ 11
      → rs1 < 32
      → f < 8
      → rd < 32
      → execute config (i_type imm rs1 f rd opcode_load) c ≡ load_at f rd rs1 imm
  loads imm rs1 f rd i a b k =
      let w = i_type imm rs1 f rd opcode_load in
      let (op, f3, d, r, m) = i_type-fields imm rs1 f rd opcode_load i a b k (omega arith) in
      execute_load w op
      ∙ ap (λ x. load_at x (rd_of w) (rs1_of w) (i_imm w)) f3
      ∙ ap (λ x. load_at f x (rs1_of w) (i_imm w)) d
      ∙ ap (λ x. load_at f rd x (i_imm w)) r
      ∙ ap (load_at f rd rs1) m

  stores :
      (imm rs2 rs1 f : ℕ)
      → imm < 2 ^ 11
      → rs1 < 32
      → f < 8
      → rs2 < 32
      → execute config (s_type imm rs2 rs1 f opcode_store) c ≡ store_at f rs2 rs1 imm
  stores imm rs2 rs1 f i a b k =
      let w = s_type imm rs2 rs1 f opcode_store in
      let (op, f3, d, r, m) = s_type-fields imm rs1 f rs2 opcode_store i a b k (omega arith) in
      execute_store w op
      ∙ ap (λ x. store_at x (rs2_of w) (rs1_of w) (s_imm w)) f3
      ∙ ap (λ x. store_at f x (rs1_of w) (s_imm w)) d
      ∙ ap (λ x. store_at f rs2 x (s_imm w)) r
      ∙ ap (store_at f rs2 rs1) m

  -- The case of the switch that an instruction comes to.
  switch_load :
      (inst : ℕ)
      → (rvc_opcode inst ≡ 0b00010
          → exec_rvc config inst c ≡ load_at 2 (short_low inst) (short_high inst) (c_word_imm inst))
        × (rvc_opcode inst ≡ 0b00011
            → exec_rvc config inst c
              ≡ load_at 3 (short_low inst) (short_high inst) (c_double_imm inst))
        × (rvc_opcode inst ≡ 0b10010
            → exec_rvc config inst c ≡ load_at 2 (long_high inst) 2 (c_lwsp_imm inst))
        × (rvc_opcode inst ≡ 0b10011
            → exec_rvc config inst c ≡ load_at 3 (long_high inst) 2 (c_ldsp_imm inst))
  unfolding load_switch
  switch_load inst = (
    λ e. unfold exec_rvc in rw (e, exec_rvc),
    λ e. unfold exec_rvc in rw (e, exec_rvc),
    λ e. unfold exec_rvc in rw (e, exec_rvc),
    λ e. unfold exec_rvc in rw (e, exec_rvc),
  )

  switch_store :
      (inst : ℕ)
      → (rvc_opcode inst ≡ 0b00110
          → exec_rvc config inst c
            ≡ store_at 2 (short_low inst) (short_high inst) (c_word_imm inst))
        × (rvc_opcode inst ≡ 0b00111
            → exec_rvc config inst c
              ≡ store_at 3 (short_low inst) (short_high inst) (c_double_imm inst))
        × (rvc_opcode inst ≡ 0b10110
            → exec_rvc config inst c ≡ store_at 2 (long_low inst) 2 (c_swsp_imm inst))
        × (rvc_opcode inst ≡ 0b10111
            → exec_rvc config inst c ≡ store_at 3 (long_low inst) 2 (c_sdsp_imm inst))
  unfolding store_switch
  switch_store inst = (
    λ e. unfold exec_rvc in rw (e, exec_rvc),
    λ e. unfold exec_rvc in rw (e, exec_rvc),
    λ e. unfold exec_rvc in rw (e, exec_rvc),
    λ e. unfold exec_rvc in rw (e, exec_rvc),
  )

  -- The case that a word comes to, with what the decoder finds in it.
  decoded_load :
      (inst imm rs1 f rd : ℕ) {imm' rs1' rd' : ℕ}
      → imm < 2 ^ 11
      → rs1 < 32
      → f < 8
      → rd < 32
      → exec_rvc config inst c ≡ load_at f rd' rs1' imm'
      → rd' ≡ rd
      → rs1' ≡ rs1
      → imm' ≡ imm
      → exec_rvc config inst c ≡ execute config (i_type imm rs1 f rd opcode_load) c
  decoded_load inst imm rs1 f rd {imm'} {rs1'} {rd'} i a b k e d r m =
      e
      ∙ ap (λ x. load_at f x rs1' imm') d
      ∙ ap (λ x. load_at f rd x imm') r
      ∙ ap (load_at f rd rs1) m
      ∙ sym (loads imm rs1 f rd i a b k)

  decoded_store :
      (inst imm rs2 rs1 f : ℕ) {imm' rs2' rs1' : ℕ}
      → imm < 2 ^ 11
      → rs1 < 32
      → f < 8
      → rs2 < 32
      → exec_rvc config inst c ≡ store_at f rs2' rs1' imm'
      → rs2' ≡ rs2
      → rs1' ≡ rs1
      → imm' ≡ imm
      → exec_rvc config inst c ≡ execute config (s_type imm rs2 rs1 f opcode_store) c
  decoded_store inst imm rs2 rs1 f {imm'} {rs2'} {rs1'} i a b k e d r m =
      e
      ∙ ap (λ x. store_at f x rs1' imm') d
      ∙ ap (λ x. store_at f rs2 x imm') r
      ∙ ap (store_at f rs2 rs1) m
      ∙ sym (stores imm rs2 rs1 f i a b k)

  -- A compressed load or store, encoded from its operands as the architecture lays them out, does in
  -- the branch for compressed instructions what the load or store of 32 bits with the same operands
  -- does in the other branch: the same access to memory, the same register written, the same traps.
  -- The offset is a multiple of the width within the range of the format; the instructions relative
  -- to the stack pointer use register 2, and a three-bit register field is a register from 8 on.
  pub exec_rvc-Expands : (inst w : ℕ) → Expands inst w → exec_rvc config inst c ≡ execute config w c
  exec_rvc-Expands inst w (c_lw imm rs1 rd small whole p q) =
      let (op, r, d, m, _) =
        cl_type-fields 2 (bits imm 3 3) rs1 (bits imm 2 1 * 2 + bits imm 6 1) rd (omega arith)
          (omega arith) p (omega arith) q in
      decoded_load inst imm (8 + rs1) 2 (8 + rd) (omega arith) (omega arith) (omega arith)
        (omega arith) ((switch_load inst).0 op) d r (m ∙ omega arith)
  exec_rvc-Expands inst w (c_ld imm rs1 rd small whole p q) =
      let (op, r, d, _, m) =
        cl_type-fields 3 (bits imm 3 3) rs1 (bits imm 6 2) rd (omega arith) (omega arith) p
          (omega arith) q in
      decoded_load inst imm (8 + rs1) 3 (8 + rd) (omega arith) (omega arith) (omega arith)
        (omega arith) ((switch_load inst).1 op) d r (m ∙ omega arith)
  exec_rvc-Expands inst w (c_sw imm rs1 rs2 small whole p q) =
      let (op, r, d, m, _) =
        cl_type-fields 6 (bits imm 3 3) rs1 (bits imm 2 1 * 2 + bits imm 6 1) rs2 (omega arith)
          (omega arith) p (omega arith) q in
      decoded_store inst imm (8 + rs2) (8 + rs1) 2 (omega arith) (omega arith) (omega arith)
        (omega arith) ((switch_store inst).0 op) d r (m ∙ omega arith)
  exec_rvc-Expands inst w (c_sd imm rs1 rs2 small whole p q) =
      let (op, r, d, _, m) =
        cl_type-fields 7 (bits imm 3 3) rs1 (bits imm 6 2) rs2 (omega arith) (omega arith) p
          (omega arith) q in
      decoded_store inst imm (8 + rs2) (8 + rs1) 3 (omega arith) (omega arith) (omega arith)
        (omega arith) ((switch_store inst).1 op) d r (m ∙ omega arith)
  exec_rvc-Expands inst w (c_lwsp imm rd small whole q) =
      let (op, d, m, _) =
        ci_type-fields 2 (bits imm 5 1) rd (bits imm 2 3 * 4 + bits imm 6 2) (omega arith)
          (omega arith) q (omega arith) in
      decoded_load inst imm 2 2 rd (omega arith) (omega arith) (omega arith) (omega arith)
        ((switch_load inst).2 op) d refl (m ∙ omega arith)
  exec_rvc-Expands inst w (c_ldsp imm rd small whole q) =
      let (op, d, _, m) =
        ci_type-fields 3 (bits imm 5 1) rd (bits imm 3 2 * 8 + bits imm 6 3) (omega arith)
          (omega arith) q (omega arith) in
      decoded_load inst imm 2 3 rd (omega arith) (omega arith) (omega arith) (omega arith)
        ((switch_load inst).3 op) d refl (m ∙ omega arith)
  exec_rvc-Expands inst w (c_swsp imm rs2 small whole q) =
      let (op, d, m, _) =
        css_type-fields 6 (bits imm 2 4 * 4 + bits imm 6 2) rs2 (omega arith) (omega arith) q in
      decoded_store inst imm rs2 2 2 (omega arith) (omega arith) (omega arith) (omega arith)
        ((switch_store inst).2 op) d refl (m ∙ omega arith)
  exec_rvc-Expands inst w (c_sdsp imm rs2 small whole q) =
      let (op, d, _, m) =
        css_type-fields 7 (bits imm 3 3 * 8 + bits imm 6 3) rs2 (omega arith) (omega arith) q in
      decoded_store inst imm rs2 2 3 (omega arith) (omega arith) (omega arith) (omega arith)
        ((switch_store inst).3 op) d refl (m ∙ omega arith)
