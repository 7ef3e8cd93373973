-- ===== src/Core/Confined.antt =====
-- User mode in difftest/src/rv_core.hpp and difftest/src/rv_priv.hpp.
use hdu_cpu_lab.Common.{ℕ, ◌≡◌, Bool, false, arith}
use hdu_cpu_lab.Common.Run.{ret}
use hdu_cpu_lab.Device.{MmioDev}
use hdu_cpu_lab.Priv.Codes.{u_mode}
use hdu_cpu_lab.Priv.Registers.{Config, mret, sret}
use hdu_cpu_lab.Priv.CsrFile.{csr_op_permission_check}
use hdu_cpu_lab.Priv.Memory.{sfence_vma}
use hdu_cpu_lab.Core.State.{Core, illegal}
use hdu_cpu_lab.Core.System.{exec_csr}

-- In user mode every CSR instruction is illegal and changes nothing, and so are `mret`, `sret` and
-- `sfence.vma`.
pub user_confined :
    {D : Type 0} ⦃dev : MmioDev D⦄ (config : Config) (c : Core D)
    → c.priv.csrs.cur_priv ≡ u_mode
    → ((always : Bool) (new : ℕ → ℕ) (inst : ℕ) → exec_csr config always new inst c ≡ ret illegal c)
      × (mret c.priv.csrs ≡ (false, c.priv.csrs))
      × (sret c.priv.csrs ≡ (false, c.priv.csrs))
      × ((vaddr asid : ℕ) → sfence_vma vaddr asid c.priv ≡ ret false c.priv)
unfolding exec_csr mret sret sfence_vma csr_op_permission_check
user_confined config c u =
    (λ always new inst. ground arith, ground arith, ground arith, λ vaddr asid. ground arith)
