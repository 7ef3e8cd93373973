-- ===== src/Core/CompressedKept.antt =====
-- The compressed instructions of difftest/src/rv_core.hpp: what they do to the registers.
use hdu_cpu_lab.Common.{refl, ℕ, ◌-◌, ◌+◌, ◌%◌, ◌≡◌, Bool, true, false, not, ◌==◌, if◌then◌else◌}
use hdu_cpu_lab.Common.Words.{u64, field, sext}
use hdu_cpu_lab.Common.Run.{
  Ran, ret, Preserves, ret-Preserves, >>=-Preserves, choose-Preserves, set-Preserves, if-ret,
}
use hdu_cpu_lab.Device.{MmioDev}
use hdu_cpu_lab.Priv.Codes.{exc_instr_misalign}
use hdu_cpu_lab.Priv.Registers.{Config}
use hdu_cpu_lab.Core.Alu.{AluOp, alu_or, alu_and, alu_exec}
use hdu_cpu_lab.Core.State.{Core, Flow, falls_through, jumps, illegal, set_gpr}
use hdu_cpu_lab.Core.Compressed
use hdu_cpu_lab.Core.Compressed.{
  rvc_opcode, short_high, long_low, long_high, c_addi4spn_imm, c_alu_op, unless_zero, exec_c_alu,
  c_jump, c_jump_to, exec_c_jr, exec_rvc,
}
use hdu_cpu_lab.Core.Kept.{
  alu_writes-IsKept, same-IsKept, IsKept, set_gpr-IsKept, writes-IsKept, on_csrs-IsKept,
  traps-IsKept, load_as-IsKept, store_as-IsKept,
}
use hdu_cpu_lab.Priv.Protect.{ebreak-IsSane}

module _ {D : Type 0} where
  c_alu_op-IsKept :
      (op : AluOp) (op_32 : Bool) (rd b : ℕ)
      → Preserves {S = Core D} IsKept (c_alu_op op op_32 rd b)
  c_alu_op-IsKept op op_32 rd b c = alu_writes-IsKept rd (alu_exec (c.gpr rd) b op op_32) c

  unless_zero-IsKept :
      (imm : ℕ) (m : Core D → Ran (Core D) Flow)
      → Preserves IsKept m
      → Preserves IsKept (unless_zero imm m)
  unless_zero-IsKept imm m h =
      choose-Preserves IsKept (imm == 0) _ m (ret-Preserves IsKept falls_through) h

  exec_c_alu-IsKept : (inst : ℕ) → Preserves {S = Core D} IsKept (exec_c_alu inst)
  unfolding exec_c_alu
  exec_c_alu-IsKept inst c a u k =
      if-ret (field inst 11 1 == 0) (unless_zero-IsKept _ _ (c_alu_op-IsKept _ _ _ _) c a u k) (
        if-ret (field inst 10 1 == 0) (c_alu_op-IsKept _ _ _ _ c a u k) (
          if-ret (funct2 == 0) (c_alu_op-IsKept _ _ _ _ c a u k) (
            if-ret (funct2 == 1) (c_alu_op-IsKept _ _ _ _ c a u k)
              (if-ret (funct2 == 2) (narrow-only alu_or) (narrow-only alu_and)))))
    where
      funct2 : ℕ
      funct2 = field inst 5 2

      narrow-only :
          (op : AluOp)
          → (if field inst 12 1 == 1
              then ret illegal c
              else c_alu_op op false
                  (Compressed.short_high inst)
                  (c.gpr (Compressed.short_low inst))
                  c)
            ≡ ret a u
          → IsKept u
      narrow-only op =
          if-ret (field inst 12 1 == 1) (ret-Preserves IsKept illegal c a u k)
            (c_alu_op-IsKept _ _ _ _ c a u k)

  c_jump-IsKept : (imm : ℕ) → Preserves {S = Core D} IsKept (c_jump imm)
  c_jump-IsKept imm = set-Preserves IsKept jumps _ (λ c k. same-IsKept refl refl refl refl k)

  c_jump_to-IsKept :
      (link : Bool) (target : ℕ) → Preserves {S = Core D} IsKept (c_jump_to link target)
  unfolding c_jump_to
  c_jump_to-IsKept link target c a u k =
      if-ret (not ((target - target % 2) % 4 == 0))
        (traps-IsKept exc_instr_misalign (target - target % 2) falls_through c a u k)
        (ret-Preserves IsKept jumps _ a u (linked link))
    where
      linked :
          (x : Bool)
          → IsKept
              (record (if x then set_gpr 1 (u64 (c.pc + 2)) c else c) { pc = target - target % 2 })
      linked true =
          let s = set_gpr-IsKept 1 (u64 (c.pc + 2)) c k in same-IsKept refl refl refl refl s
      linked false = same-IsKept refl refl refl refl k

  exec_c_jr-IsKept : (inst : ℕ) → Preserves {S = Core D} IsKept (exec_c_jr inst)
  unfolding exec_c_jr
  exec_c_jr-IsKept inst c a u k =
      if-ret (field inst 12 1 == 1)
        (if-ret (long_low inst == 0)
          (if-ret (long_high inst == 0)
            (>>=-Preserves IsKept _ _ (on_csrs-IsKept _ (ebreak-IsSane c.pc))
              (λ _. ret-Preserves IsKept falls_through) c a u k)
            (c_jump_to-IsKept true _ c a u k))
          (c_alu_op-IsKept _ _ _ _ c a u k))
        (if-ret (long_low inst == 0)
          (if-ret (long_high inst == 0) (ret-Preserves IsKept illegal c a u k)
            (c_jump_to-IsKept false _ c a u k))
          (writes-IsKept _ _ c a u k))

module _ {D : Type 0} ⦃dev : MmioDev D⦄ where
  pub exec_rvc-IsKept :
      (config : Config) (inst : ℕ) → Preserves {S = Core D} IsKept (exec_rvc config inst)
  unfolding exec_rvc
  exec_rvc-IsKept config inst c a u k =
      if-ret (rvc_opcode inst == 0)
        (if-ret (c_addi4spn_imm inst == 0) bad (writes-IsKept _ _ c a u k))
        (if-ret (rvc_opcode inst == 2) (load_as-IsKept 4 (sext 32) _ _ c a u k) (
          if-ret (rvc_opcode inst == 3) (load_as-IsKept 8 (λ x. x) _ _ c a u k) (
            if-ret (rvc_opcode inst == 6) (store_as-IsKept config 4 _ _ c a u k) (
              if-ret (rvc_opcode inst == 7) (store_as-IsKept config 8 _ _ c a u k) (
                if-ret (rvc_opcode inst == 8)
                  (unless_zero-IsKept _ _ (c_alu_op-IsKept _ _ _ _) c a u k)
                  (if-ret (rvc_opcode inst == 9) (c_alu_op-IsKept _ _ _ _ c a u k) (
                    if-ret (rvc_opcode inst == 10) (writes-IsKept _ _ c a u k) (
                      if-ret (rvc_opcode inst == 11)
                        (if-ret (long_high inst == 2)
                          (unless_zero-IsKept _ _ (writes-IsKept _ _) c a u k)
                          (unless_zero-IsKept _ _ (writes-IsKept _ _) c a u k))
                        (if-ret (rvc_opcode inst == 12) (exec_c_alu-IsKept inst c a u k) (
                          if-ret (rvc_opcode inst == 13) (c_jump-IsKept _ c a u k) (
                            if-ret (rvc_opcode inst == 14)
                              (if-ret (c.gpr (short_high inst) == 0) (c_jump-IsKept _ c a u k) next)
                              (if-ret (rvc_opcode inst == 15)
                                (if-ret (c.gpr (short_high inst) == 0) next
                                  (c_jump-IsKept _ c a u k))
                                (if-ret (rvc_opcode inst == 16)
                                  (unless_zero-IsKept _ _ (c_alu_op-IsKept _ _ _ _) c a u k)
                                  (if-ret (rvc_opcode inst == 18)
                                    (load_as-IsKept 4 (sext 32) _ _ c a u k)
                                    (if-ret (rvc_opcode inst == 19)
                                      (load_as-IsKept 8 (λ x. x) _ _ c a u k)
                                      (if-ret (rvc_opcode inst == 20)
                                        (exec_c_jr-IsKept inst c a u k)
                                        (if-ret (rvc_opcode inst == 22)
                                          (store_as-IsKept config 4 _ _ c a u k)
                                          (if-ret (rvc_opcode inst == 23)
                                            (store_as-IsKept config 8 _ _ c a u k)
                                            bad))))))))))))))))))
    where
      bad : ret illegal c ≡ ret a u → IsKept u
      bad = ret-Preserves IsKept illegal c a u k

      next : ret falls_through c ≡ ret a u → IsKept u
      next = ret-Preserves IsKept falls_through c a u k
