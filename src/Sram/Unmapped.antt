-- ===== src/Sram/Unmapped.antt =====
-- Accesses that no port of the crossbar of difftest/src/nscscc_sram_xbar.hpp takes.
use hdu_cpu_lab.Common.{ℕ, List, ◌++◌, drop, length, leb, if◌then◌else◌}
use hdu_cpu_lab.Common.Run.{Ran, ret, abort}
use hdu_cpu_lab.Device.{MmioDev}
use hdu_cpu_lab.Sram.Xbar.{Port, Xbar, poison}
use hdu_cpu_lab.Sram.Xbar

module _ {D : Type 0} ⦃dev : MmioDev D⦄ (x : Xbar D) (a n : ℕ) (buffer : List ℕ) where
  -- What an access that no port takes comes to.
  abbrev pub poisoned : Ran (Xbar D) (List ℕ)
  poisoned = if leb 4 (length buffer) then ret (poison ++ drop 4 buffer) x else abort
