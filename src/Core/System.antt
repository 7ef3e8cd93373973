-- ===== src/Core/System.antt =====
-- OPCODE_SYSTEM and OPCODE_AMO of difftest/src/rv_core.hpp.
use hdu_cpu_lab.Common.{
  ℕ, ◌-◌, ◌/◌, ◌%◌, ◌^◌, Bool, true, false, not, ◌&&◌, ◌||◌, none, some, bit_and, bit_or, ◌==◌,
  if◌then◌else◌,
}
use hdu_cpu_lab.Common.Words.{field, sext}
use hdu_cpu_lab.Common.Bytes.{to_bytes, from_bytes}
use hdu_cpu_lab.Common.Run.{Ran, ret, exits, ◌>>=◌, ◌>>◌}
use hdu_cpu_lab.Device.{MmioDev}
use hdu_cpu_lab.Bus.Amo.{
  AmoFunct, amoswap, amoadd, amoxor, amoand, amoor, amomin, amomax, amominu, amomaxu,
}
use hdu_cpu_lab.Priv.{Access, okay, exc, on_csrs}
use hdu_cpu_lab.Priv.CsrFile.{csr_read, csr_write, csr_op_permission_check}
use hdu_cpu_lab.Priv.Memory.{va_lr, va_sc, va_amo, sfence_vma}
use hdu_cpu_lab.Priv.Registers.{Config, Csrs, ecall, ebreak, mret, sret}
use hdu_cpu_lab.Core.State.{
  Core, Flow, falls_through, illegal, on_priv, writes, trap, dump_pc_history,
}
use hdu_cpu_lab.Core.Fields.{rd_of, rs1_of, rs2_of, funct3_of, funct7_of}

abbrev pub legal_if : Bool → Flow
legal_if ok = record { ri = not ok; new_pc = false }

module _ {D : Type 0} where
  unfoldable pub exec_ecall : Config → Core D → Ran (Core D) Flow
  exec_ecall config c =
      if config.run_riscv_test && c.gpr 17 == 93
      then (if c.gpr 10 == 0 then exits 0 else (dump_pc_history >> λ _. exits 1) c)
      else (do on_priv (on_csrs (ecall c.pc)); ret falls_through) c

  unfoldable pub exec_ebreak : Config → Core D → Ran (Core D) Flow
  exec_ebreak config c =
      if config.run_riscv_test && c.gpr 10 == 0
      then exits 0
      else (do on_priv (on_csrs (ebreak c.pc)); ret falls_through) c

  -- A return from a trap, whose method gives false for an illegal instruction.
  abbrev pub returns_by : (Csrs → Bool × Csrs) → Core D → Ran (Core D) Flow
  returns_by method = do
    ok ← on_priv (on_csrs (λ s. ret (method s).0 (method s).1))
    ret (legal_if ok)

  -- The CSR instructions: `always` writes also from register or immediate 0, `new` makes the value
  -- to write from the old one.
  unfoldable pub exec_csr : Config → Bool → (ℕ → ℕ) → ℕ → Core D → Ran (Core D) Flow
  exec_csr config always new inst c =
      let csr_index = field inst 20 12 in
      let write = always || not (rs1_of inst == 0) in
      let finish = λ (old : ℕ).
        (if not (rd_of inst == 0) then writes (rd_of inst) old else ret falls_through) in
      if not (csr_op_permission_check csr_index write c.priv.csrs)
      then ret illegal c
      else elim (csr_read csr_index c.priv.csrs) [
        | none ↦ ret illegal c
        | some old ↦
            if write
            then (do
              ok ← on_priv (on_csrs (csr_write config csr_index (new old)))
              if ok then finish old else ret illegal)
                c
            else finish old c
      ]

module _ {D : Type 0} ⦃dev : MmioDev D⦄ where
  -- FUNCT3_PRIV
  unfoldable pub exec_priv : Config → ℕ → Core D → Ran (Core D) Flow
  unfolding exec_ecall exec_ebreak
  exec_priv config inst c =
      let plain = rs1_of inst == 0 && rd_of inst == 0 in
      let funct7 = funct7_of inst in
      let rs2 = rs2_of inst in
      if funct7 == 0b0000000
      then if not plain
        then ret illegal c
        else if rs2 == 0
        then exec_ecall config c
        else if rs2 == 1
        then exec_ebreak config c
        else ret illegal c
      else if funct7 == 0b0001000
      then if not plain
        then ret falls_through c
        else if rs2 == 0b00010
        then returns_by sret c
        else if rs2 == 0b00101
        then ret falls_through c
        else ret illegal c
      else if funct7 == 0b0011000
      then if rs2 == 0b00010 && plain then returns_by mret c else ret illegal c
      else if funct7 == 0b0001001
      then (do
        ok ← on_priv (sfence_vma (c.gpr (rs1_of inst)) (c.gpr (rs2_of inst) % 2 ^ 16))
        ret (legal_if ok))
          c
      else ret illegal c

  unfoldable pub exec_system : Config → ℕ → Core D → Ran (Core D) Flow
  unfolding exec_priv exec_csr
  exec_system config inst c =
      let rs1 = rs1_of inst in
      let value = c.gpr rs1 in
      let funct3 = funct3_of inst in
      if funct3 == 0b000
      then exec_priv config inst c
      else if funct3 == 0b001
      then exec_csr config true (λ _. value) inst c
      else if funct3 == 0b010
      then exec_csr config false (λ old. bit_or old value) inst c
      else if funct3 == 0b011
      then exec_csr config false (λ old. bit_and old (2 ^ 64 - 1 - value)) inst c
      else if funct3 == 0b101
      then exec_csr config true (λ _. rs1) inst c
      else if funct3 == 0b110
      then exec_csr config false (λ old. bit_or old rs1) inst c
      else if funct3 == 0b111
      then exec_csr config false (λ old. bit_and old (2 ^ 64 - 1 - rs1)) inst c
      else ret illegal c

  -- The commit of an atomic instruction, or its trap.
  abbrev pub commits : {A : Type 0} → ℕ → ℕ → (A → ℕ) → Access A → Core D → Ran (Core D) Flow
  commits rd addr value (okay a) = writes rd (value a)
  commits rd addr value (exc code) = do trap code addr; ret falls_through

  unfoldable pub exec_amo_op : AmoFunct → ℕ → ℕ → Core D → Ran (Core D) Flow
  exec_amo_op op inst size c =
      (do
        r ← on_priv (va_amo (c.gpr (rs1_of inst)) size op (c.gpr (rs2_of inst)))
        commits (rd_of inst) (c.gpr (rs1_of inst)) (λ x. x) r)
        c

  unfoldable pub exec_lr : ℕ → ℕ → Core D → Ran (Core D) Flow
  exec_lr inst size c =
      (do
        r ← on_priv (va_lr (c.gpr (rs1_of inst)) size)
        commits (rd_of inst) (c.gpr (rs1_of inst))
            (λ bytes. if size == 8 then from_bytes bytes else sext 32 (from_bytes bytes)) r)
        c

  unfoldable pub exec_sc : ℕ → ℕ → Core D → Ran (Core D) Flow
  exec_sc inst size c =
      (do
        r ← on_priv (va_sc (c.gpr (rs1_of inst)) size (to_bytes 8 (c.gpr (rs2_of inst))))
        commits (rd_of inst) (c.gpr (rs1_of inst)) (λ sc_fail. if sc_fail then 1 else 0) r)
        c

  unfoldable pub exec_amo : ℕ → Core D → Ran (Core D) Flow
  unfolding exec_amo_op exec_lr exec_sc
  exec_amo inst =
      let funct5 = funct7_of inst / 4 in
      let size = 2 ^ funct3_of inst in
      if not (funct3_of inst == 0b010) && not (funct3_of inst == 0b011)
      then ret illegal
      else if funct5 == 0b00010
      then if not (rs2_of inst == 0) then ret illegal else exec_lr inst size
      else if funct5 == 0b00011
      then exec_sc inst size
      else if funct5 == 0b00001
      then exec_amo_op amoswap inst size
      else if funct5 == 0b00000
      then exec_amo_op amoadd inst size
      else if funct5 == 0b00100
      then exec_amo_op amoxor inst size
      else if funct5 == 0b01100
      then exec_amo_op amoand inst size
      else if funct5 == 0b01000
      then exec_amo_op amoor inst size
      else if funct5 == 0b10000
      then exec_amo_op amomin inst size
      else if funct5 == 0b10100
      then exec_amo_op amomax inst size
      else if funct5 == 0b11000
      then exec_amo_op amominu inst size
      else if funct5 == 0b11100
      then exec_amo_op amomaxu inst size
      else ret illegal
