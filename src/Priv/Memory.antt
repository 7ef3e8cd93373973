-- ===== src/Priv/Memory.antt =====
-- The accesses of rv_priv by virtual address, and its fence, difftest/src/rv_priv.hpp.
use hdu_cpu_lab.Common.{
  ℕ, ◌+◌, ◌%◌, Bool, true, false, ◌&&◌, ◌||◌, none, some, List, ◌++◌, take, ltb, ◌==◌,
  if◌then◌else◌,
}
use hdu_cpu_lab.Common.Words.{u64}
use hdu_cpu_lab.Common.Bytes.{from_bytes}
use hdu_cpu_lab.Common.Run.{Ran, ret, abort, exits, ◌>>=◌}
use hdu_cpu_lab.Device.{MmioDev}
use hdu_cpu_lab.Bus.{pa_read, pa_write, pa_lr, pa_sc, pa_amo_op}
use hdu_cpu_lab.Bus.Amo.{AmoFunct}
use hdu_cpu_lab.Sv39.Fields.{satp_mode}
use hdu_cpu_lab.Sv39.Tlb
use hdu_cpu_lab.Priv.{
  Priv, Access, okay, exc, is_bare, tohost_addr, set_mmu, on_bus, if_checks, read_checks, lr_checks,
  store_checks, access,
}
use hdu_cpu_lab.Priv.Codes.{s_mode, m_mode, tvm, bit}
use hdu_cpu_lab.Priv.Registers.{Config}

module _ {D : Type 0} ⦃dev : MmioDev D⦄ where
  unfoldable pub va_if_once : ℕ → ℕ → Priv D → Ran (Priv D) (Access (List ℕ))
  va_if_once start_addr size p =
      access (p.csrs.cur_priv == m_mode || satp_mode p.csrs.satp == 0) if_checks start_addr size
        (λ pa. on_bus (pa_read pa size)) p

  -- The result of a fetch, with `bad_va`. A fetch of four bytes at an address that is 2 modulo 4 is
  -- made in two halves.
  unfoldable pub va_if : ℕ → ℕ → Priv D → Ran (Priv D) (Access (List ℕ) × ℕ)
  unfolding va_if_once
  va_if start_addr size =
      let next = u64 (start_addr + 2) in
      if size == 4 && start_addr % 4 == 2
      then (do
        first ← va_if_once start_addr 2
        elim first [
          | exc code ↦ ret (exc code, start_addr)
          | okay low ↦ do
            second ← va_if_once next 2
            ret (elim second [
              | exc code ↦ (exc code, next)
              | okay high ↦ (okay (low ++ high), next)
            ])
        ])
      else (do r ← va_if_once start_addr size; ret (r, start_addr))

  unfoldable pub va_read : ℕ → ℕ → Priv D → Ran (Priv D) (Access (List ℕ))
  va_read start_addr size p =
      access (is_bare p.csrs) read_checks start_addr size (λ pa. on_bus (pa_read pa size)) p

  -- `buffer` is the whole register that the source points into; a RISC-V test ends the process by
  -- writing 1 to `tohost`.
  unfoldable pub va_write : Config → ℕ → ℕ → List ℕ → Priv D → Ran (Priv D) (Access (Unit {0}))
  va_write config start_addr size buffer p =
      access (is_bare p.csrs) store_checks start_addr size
        (λ pa.
          if config.run_riscv_test && pa == tohost_addr && from_bytes (take 8 buffer) == 1
          then (λ _. exits 0)
          else on_bus (do ok ← pa_write pa (take size buffer); ret (if ok then some tt else none)))
        p

  unfoldable pub va_lr : ℕ → ℕ → Priv D → Ran (Priv D) (Access (List ℕ))
  va_lr start_addr size p =
      if size == 4 || size == 8
      then access (is_bare p.csrs) lr_checks start_addr size
          (λ pa. on_bus (pa_lr pa size p.csrs.hart_id)) p
      else abort

  -- The value is that of `sc_fail`.
  unfoldable pub va_sc : ℕ → ℕ → List ℕ → Priv D → Ran (Priv D) (Access Bool)
  va_sc start_addr size buffer p =
      if size == 4 || size == 8
      then access (is_bare p.csrs) store_checks start_addr size
          (λ pa. on_bus (pa_sc pa (take size buffer) p.csrs.hart_id)) p
      else abort

  -- The value is that of `dst`.
  unfoldable pub va_amo : ℕ → ℕ → AmoFunct → ℕ → Priv D → Ran (Priv D) (Access ℕ)
  va_amo start_addr size op src p =
      if size == 4 || size == 8
      then access (is_bare p.csrs) store_checks start_addr size
          (λ pa. on_bus (pa_amo_op pa size op src)) p
      else abort

  -- The result is false for an illegal instruction.
  unfoldable pub sfence_vma : ℕ → ℕ → Priv D → Ran (Priv D) Bool
  sfence_vma vaddr asid p =
      if ltb p.csrs.cur_priv s_mode || (p.csrs.cur_priv == s_mode && ltb 0 (bit p.csrs.status tvm))
      then ret false p
      else ret true (set_mmu (record p.mmu { sv39 = Tlb.sfence_vma vaddr asid p.mmu.sv39 }) p)
