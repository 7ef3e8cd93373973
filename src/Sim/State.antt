-- ===== src/Sim/State.antt =====
-- The globals and local variables of riscv_test_run and make_cpu_trace in difftest/src/sim_mycpu.cpp.
use hdu_cpu_lab.Common.{ℕ, Bool, false, List}
use hdu_cpu_lab.Device.Mem.{Mem}
use hdu_cpu_lab.Sram.Slave.{Slave}
use hdu_cpu_lab.Sram.Xbar.{Xbar}
use hdu_cpu_lab.Priv.Registers.{Config}
use hdu_cpu_lab.Core.State.{Core}
use hdu_cpu_lab.Sim.Design.{Ports}

-- The globals that the options set. `dual_issue` is set by none of them. The options that only choose
-- what is printed are `print_pc` and `perf_counter`.
pub record Flags : Type 0 where
  pub run_riscv_test : Bool
  pub dump_pc_history : Bool
  pub print_pc : Bool
  pub should_delay : Bool
  pub dual_issue : Bool
  pub perf_counter : Bool
  pub init_gprs : Bool
  pub write_append : Bool
  pub has_delayslot : Bool
  pub only_mode_m : Bool
  pub trace_on : Bool
  pub trace_start_time : ℕ
  pub sim_time : ℕ

abbrev pub commit_timeout : ℕ
commit_timeout = 3000

abbrev pub print_pc_cycle : ℕ
print_pc_cycle = 500000

unfoldable pub flags : Flags
flags = record {
  run_riscv_test = false;
  dump_pc_history = false;
  print_pc = false;
  should_delay = false;
  dual_issue = false;
  perf_counter = false;
  init_gprs = false;
  write_append = false;
  has_delayslot = false;
  only_mode_m = false;
  trace_on = false;
  trace_start_time = 0;
  sim_time = 100000000;
}

-- The globals that the reference model reads.
abbrev pub config_of : Flags → Config
config_of o = record { run_riscv_test = o.run_riscv_test; only_mode_m = o.only_mode_m }

-- The line `1 pc reg_num reg_wdata` of the trace file.
pub record Retired : Type 0 where
  pub pc : ℕ
  pub reg_num : ℕ
  pub reg_wdata : ℕ

-- The state of the loop over a design with the rest `T`. `core` is `cemu_rvcore` with its bus and its
-- memory, `mmio` the crossbar with the memory of the design, the signals `mmio_sigs` and the global
-- `running`. `delay` is an int that reaches -1 only as the loop ends;
-- `sim_time` is a long as its 64-bit pattern. `trace_file` holds the lines that
-- this run writes, the last one first.
pub record Sim (T : Type 0) : Type 0 where
  pub top : Ports
  pub rest : T
  pub core : Core Mem
  pub mmio : Slave (Xbar Mem)
  pub rst_ticks : ℕ
  pub ticks : ℕ
  pub last_commit : ℕ
  pub pc_cnt : ℕ
  pub delayslot_cnt : ℕ
  pub delayslot_flag : Bool
  pub delay : ℕ
  pub total_cycle : ℕ
  pub total_instr : ℕ
  pub sim_time : ℕ
  pub trace_file : List Retired
