-- ===== src/Sim/Design.antt =====
-- The design under test as difftest/src/sim_mycpu.cpp sees it. Its class Vtop is made by Verilator from
-- the Chisel sources: its public members are a record, and what it does is a parameter.
use hdu_cpu_lab.Common.{ℕ, Bool}
use hdu_cpu_lab.Sram.{Sram}

-- The members of Vtop that the loop reads and writes; `sram` are the ten that `connect_wire` points to.
pub record Ports : Type 0 where
  pub clock : Bool
  pub reset : Bool
  pub sram : Sram
  pub debug_commit : Bool
  pub debug_pc : ℕ
  pub debug_rf_wnum : ℕ
  pub debug_rf_wdata : ℕ

-- `eval` over the public members and the rest `T` of the object, and Verilated::gotFinish.
pub record Vtop (T : Type 0) : Type 0 where
  pub eval : Ports → T → Ports × T
  pub got_finish : T → Bool
