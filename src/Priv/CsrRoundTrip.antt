-- ===== src/Priv/CsrRoundTrip.antt =====
-- Writing and then reading a register by number, difftest/src/rv_priv.hpp.
use hdu_cpu_lab.Common.{ℕ, ◌≡◌, ◌⊎◌, true, some, arith, if◌then◌else◌, ◌==◌}
use hdu_cpu_lab.Common.Run.{ret}
use hdu_cpu_lab.Priv.Registers.{Config, Csrs}
use hdu_cpu_lab.Priv.CsrFile.{
  csr_read, csr_write, csr_mscratch, csr_mepc, csr_mcause, csr_mtval, csr_mcycle,
}

-- The registers that hold any value.
abbrev pub IsPlain : ℕ → Type 0
IsPlain i =
    (i ≡ csr_mscratch) ⊎ (i ≡ csr_mepc) ⊎ (i ≡ csr_mcause) ⊎ (i ≡ csr_mtval) ⊎ (i ≡ csr_mcycle)

-- A register that holds any value reads as what was last written to it, and a write of one of them
-- does not change what another of them reads as.
pub csr_read-csr_write :
    (config : Config) (i j v : ℕ) (c t : Csrs)
    → IsPlain i
    → IsPlain j
    → csr_write config i v c ≡ ret true t
    → csr_read j t ≡ (if i == j then some v else csr_read j c)
unfolding csr_read csr_write
csr_read-csr_write config i j v c t p q h = ground arith
