-- ===== src/Core/SystemKept.antt =====
-- The system and the atomic instructions of difftest/src/rv_core.hpp: what they do to the registers.
use hdu_cpu_lab.Common.{
  ℕ, Bool, true, false, not, ◌&&◌, ◌||◌, ◌==◌, ◌%◌, ◌/◌, ◌^◌, Option, none, some, if◌then◌else◌,
}
use hdu_cpu_lab.Common.Words.{field}
use hdu_cpu_lab.Common.Run.{
  Ran, ret, ◌>>=◌, Preserves, ret-Preserves, >>=-Preserves, if-Preserves, choose-Preserves,
  exits-Preserves,
}
use hdu_cpu_lab.Device.{MmioDev}
use hdu_cpu_lab.Bus.Amo.{
  AmoFunct, amoswap, amoadd, amoxor, amoand, amoor, amomin, amomax, amominu, amomaxu,
}
use hdu_cpu_lab.Priv.{Access, okay, exc, on_csrs}
use hdu_cpu_lab.Priv.Registers.{Config, Csrs, mret, sret}
use hdu_cpu_lab.Priv.CsrFile.{csr_read, csr_write}
use hdu_cpu_lab.Priv.Memory.{sfence_vma}
use hdu_cpu_lab.Priv.Invariant.{IsSane}
use hdu_cpu_lab.Priv.Protect.{
  ecall-IsSane, ebreak-IsSane, mret-IsSane, sret-IsSane, csr_write-IsSane,
}
use hdu_cpu_lab.Priv.Untouched.{va_lr-OnCsrs, va_sc-OnCsrs, va_amo-OnCsrs, sfence_vma-OnCsrs}
use hdu_cpu_lab.Core.Fields.{rd_of, rs1_of, rs2_of, funct3_of, funct7_of}
use hdu_cpu_lab.Core.State.{Core, Flow, falls_through, illegal, on_priv, writes}
use hdu_cpu_lab.Core.System.{
  legal_if, exec_ecall, exec_ebreak, returns_by, exec_csr, exec_priv, exec_system, commits,
  exec_amo_op, exec_lr, exec_sc, exec_amo,
}
use hdu_cpu_lab.Core.Kept.{
  IsKept, writes-IsKept, on_priv-IsKept, on_csrs-IsKept, traps-IsKept, dump_pc_history-IsKept,
}

module _ {D : Type 0} where
  exec_ecall-IsKept : (config : Config) → Preserves {S = Core D} IsKept (exec_ecall config)
  unfolding exec_ecall
  exec_ecall-IsKept config c =
      if-Preserves IsKept (config.run_riscv_test && c.gpr 17 == 93) _ _
        (if-Preserves IsKept (c.gpr 10 == 0) _ _ (exits-Preserves IsKept 0)
          (>>=-Preserves IsKept _ _ dump_pc_history-IsKept (λ _. exits-Preserves IsKept 1)))
        (>>=-Preserves IsKept _ _ (on_csrs-IsKept _ (ecall-IsSane c.pc))
          (λ _. ret-Preserves IsKept falls_through))
        c

  exec_ebreak-IsKept : (config : Config) → Preserves {S = Core D} IsKept (exec_ebreak config)
  unfolding exec_ebreak
  exec_ebreak-IsKept config c =
      if-Preserves IsKept (config.run_riscv_test && c.gpr 10 == 0) _ _ (exits-Preserves IsKept _)
        (>>=-Preserves IsKept _ _ (on_csrs-IsKept _ (ebreak-IsSane c.pc))
          (λ _. ret-Preserves IsKept falls_through))
        c

  returns_by-IsKept :
      (method : Csrs → Bool × Csrs)
      → ((s : Csrs) → IsSane s → IsSane (method s).1)
      → Preserves {S = Core D} IsKept (returns_by method)
  returns_by-IsKept method h =
      >>=-Preserves IsKept _ _ (on_csrs-IsKept _ (λ s. set_step s))
        (λ ok. ret-Preserves IsKept (legal_if ok))
    where
      set_step : Preserves IsSane (λ s. ret (method s).0 (method s).1)
      set_step s a t p e = ret-Preserves IsSane (method s).0 (method s).1 a t (h s p) e

  exec_csr-IsKept :
      (config : Config) (always : Bool) (new : ℕ → ℕ) (inst : ℕ)
      → Preserves {S = Core D} IsKept (exec_csr config always new inst)
  unfolding exec_csr
  exec_csr-IsKept config always new inst c =
      if-Preserves IsKept _ _ _ (ret-Preserves IsKept illegal)
        (by_read (csr_read csr_index c.priv.csrs)) c
    where
      csr_index : ℕ
      csr_index = field inst 20 12

      write : Bool
      write = always || not (rs1_of inst == 0)

      finishes : ℕ → Core D → Ran (Core D) Flow
      finishes old = if not (rd_of inst == 0) then writes (rd_of inst) old else ret falls_through

      finishes-IsKept : (old : ℕ) → Preserves IsKept (finishes old)
      finishes-IsKept old =
          choose-Preserves IsKept _ _ _ (writes-IsKept (rd_of inst) old)
            (ret-Preserves IsKept falls_through)

      by_read :
          (r : Option ℕ)
          → Preserves {A = Flow} IsKept (λ c. elim r [
            | none ↦ ret illegal c
            | some old ↦
                if write
                then (do
                  ok ← on_priv (on_csrs (csr_write config csr_index (new old)))
                  if ok then finishes old else ret illegal)
                    c
                else finishes old c
          ])
      by_read none = ret-Preserves IsKept illegal
      by_read (some old) =
          if-Preserves IsKept write _ _
            (>>=-Preserves IsKept _ _
              (on_csrs-IsKept _ (csr_write-IsSane config csr_index (new old)))
              (λ ok.
                choose-Preserves IsKept ok _ _ (finishes-IsKept old)
                  (ret-Preserves IsKept illegal)))
            (finishes-IsKept old)

module _ {D : Type 0} ⦃dev : MmioDev D⦄ where
  exec_priv-IsKept :
      (config : Config) (inst : ℕ) → Preserves {S = Core D} IsKept (exec_priv config inst)
  unfolding exec_priv
  exec_priv-IsKept config inst =
      if-Preserves IsKept (funct7_of inst == 0) _ _
        (if-Preserves IsKept (not plain) _ _ bad (
          if-Preserves IsKept (rs2_of inst == 0) _ _ (exec_ecall-IsKept config)
            (if-Preserves IsKept (rs2_of inst == 1) _ _ (exec_ebreak-IsKept config) bad)))
        (if-Preserves IsKept (funct7_of inst == 8) _ _
          (if-Preserves IsKept (not plain) _ _ (ret-Preserves IsKept falls_through) (
            if-Preserves IsKept (rs2_of inst == 2) _ _ (returns_by-IsKept sret sret-IsSane) (
              if-Preserves IsKept (rs2_of inst == 5) _ _ (ret-Preserves IsKept falls_through) bad)))
          (if-Preserves IsKept (funct7_of inst == 24) _ _
            (if-Preserves IsKept (rs2_of inst == 2 && plain) _ _
              (returns_by-IsKept mret mret-IsSane) bad)
            (if-Preserves IsKept (funct7_of inst == 9) _ _ fenced bad)))
    where
      plain : Bool
      plain = rs1_of inst == 0 && rd_of inst == 0

      bad : Preserves {S = Core D} IsKept (ret illegal)
      bad = ret-Preserves IsKept illegal

      fenced : Preserves {S = Core D} {A = Flow} IsKept (λ c.
          (do
            ok ← on_priv (sfence_vma (c.gpr (rs1_of inst)) (c.gpr (rs2_of inst) % 2 ^ 16))
            ret (legal_if ok))
            c)
      fenced c =
          >>=-Preserves IsKept _ _ (on_priv-IsKept _ (sfence_vma-OnCsrs IsSane _ _))
            (λ ok. ret-Preserves IsKept (legal_if ok)) c

  pub exec_system-IsKept :
      (config : Config) (inst : ℕ) → Preserves {S = Core D} IsKept (exec_system config inst)
  unfolding exec_system
  exec_system-IsKept config inst c =
      if-Preserves IsKept (funct3_of inst == 0) _ _ (exec_priv-IsKept config inst)
        (csr 1 true _ (
          csr 2 false _ (
            csr 3 false _
              (csr 5 true _ (csr 6 false _ (csr 7 false _ (ret-Preserves IsKept illegal)))))))
        c
    where
      csr :
          (n : ℕ) (always : Bool) (new : ℕ → ℕ) {rest : Core D → Ran (Core D) Flow}
          → Preserves IsKept rest
          → Preserves IsKept
              (λ c. if funct3_of inst == n then exec_csr config always new inst c else rest c)
      csr n always new {rest} h =
          if-Preserves IsKept (funct3_of inst == n) _ rest (exec_csr-IsKept config always new inst)
            h

  commits-IsKept :
      {A : Type 0} (rd addr : ℕ) (value : A → ℕ) (r : Access A)
      → Preserves {S = Core D} IsKept (commits rd addr value r)
  commits-IsKept rd addr value (okay a) = writes-IsKept rd (value a)
  commits-IsKept rd addr value (exc code) = traps-IsKept code addr falls_through

  exec_amo_op-IsKept :
      (op : AmoFunct) (inst size : ℕ) → Preserves {S = Core D} IsKept (exec_amo_op op inst size)
  unfolding exec_amo_op
  exec_amo_op-IsKept op inst size c =
      >>=-Preserves IsKept _ _ (on_priv-IsKept _ (va_amo-OnCsrs IsSane _ size op _))
        (commits-IsKept _ _ _) c

  exec_lr-IsKept : (inst size : ℕ) → Preserves {S = Core D} IsKept (exec_lr inst size)
  unfolding exec_lr
  exec_lr-IsKept inst size c =
      >>=-Preserves IsKept _ _ (on_priv-IsKept _ (va_lr-OnCsrs IsSane _ size))
        (commits-IsKept _ _ _) c

  exec_sc-IsKept : (inst size : ℕ) → Preserves {S = Core D} IsKept (exec_sc inst size)
  unfolding exec_sc
  exec_sc-IsKept inst size c =
      >>=-Preserves IsKept _ _ (on_priv-IsKept _ (va_sc-OnCsrs IsSane _ size _))
        (commits-IsKept _ _ _) c

  pub exec_amo-IsKept : (inst : ℕ) → Preserves {S = Core D} IsKept (exec_amo inst)
  unfolding exec_amo
  exec_amo-IsKept inst =
      choose-Preserves IsKept (not (funct3_of inst == 2) && not (funct3_of inst == 3)) _ _ bad (
        case 2 (choose-Preserves IsKept (not (rs2_of inst == 0)) _ _ bad (exec_lr-IsKept inst size))
          (case 3 (exec_sc-IsKept inst size) (
            case 1 (amo amoswap) (
              case 0 (amo amoadd) (
                case 4 (amo amoxor) (
                  case 12 (amo amoand) (
                    case 8 (amo amoor) (
                      case 16 (amo amomin) (
                        case 20 (amo amomax)
                          (case 24 (amo amominu) (case 28 (amo amomaxu) bad)))))))))))
    where
      size : ℕ
      size = 2 ^ funct3_of inst

      bad : Preserves {S = Core D} IsKept (ret illegal)
      bad = ret-Preserves IsKept illegal

      amo : (op : AmoFunct) → Preserves {S = Core D} IsKept (exec_amo_op op inst size)
      amo op = exec_amo_op-IsKept op inst size

      case :
          (n : ℕ) {m rest : Core D → Ran (Core D) Flow}
          → Preserves IsKept m
          → Preserves IsKept rest
          → Preserves IsKept (if funct7_of inst / 4 == n then m else rest)
      case n {m} {rest} = choose-Preserves IsKept (funct7_of inst / 4 == n) m rest
