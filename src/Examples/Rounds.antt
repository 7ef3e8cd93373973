-- ===== src/Examples/Rounds.antt =====
-- A design that executes `addi x1, x0, 5` after its reset, beside the reference model.
use hdu_cpu_lab.Common.{
  ℕ, ◌+◌, ◌≡◌, inl, refl, Bool, true, false, Option, none, some, List, [], ◌∷◌, leb, ◌==◌, arith,
}
use hdu_cpu_lab.Common.Run.{Ran, ret, abort, exits}
use hdu_cpu_lab.Device.Mem.Laws.{mem_dev}
use hdu_cpu_lab.Sram.{nscscc_sram}
use hdu_cpu_lab.Core.Kept.{IsKept}
use hdu_cpu_lab.Sim.Design.{Ports, Vtop}
use hdu_cpu_lab.Sim.State.{Sim, flags}
use hdu_cpu_lab.Sim.Tick.{test_round, trace_round, loop}
use hdu_cpu_lab.Sim.{Uninitialised, at_start, setup, cemu_rvcore, mem_base, riscv_test_run}
use hdu_cpu_lab.Bus
use hdu_cpu_lab.Bus.{pa_read}
use hdu_cpu_lab.Sram.Xbar
use hdu_cpu_lab.Sim.Setup.{IsReady, setup-IsReady, setup_lem, cemu_bus, rtl_bus}
use hdu_cpu_lab.Sim.Loading.{file_bytes, same_program}
use hdu_cpu_lab.Sim.Sound.{runs-IsKept}
use hdu_cpu_lab.Sim.Timeout.{Ends, hung-Ends}
use hdu_cpu_lab.Sim.Refine.{Followed, loop-follows}
use hdu_cpu_lab.Common.Bytes.{read_bytes, write_bytes, from_bytes}
use hdu_cpu_lab.Common.Run.{within}
use hdu_cpu_lab.Device.Mem.{do_read, mmio_mem, mmio_mem_file}
use hdu_cpu_lab.Bus.{route}
use hdu_cpu_lab.Bus.Table.{before_upper}
use hdu_cpu_lab.Sv39.Tlb.{rv_sv39}
use hdu_cpu_lab.Priv.{access}
use hdu_cpu_lab.Priv.Memory.{va_if, va_if_once}
use hdu_cpu_lab.Priv.Registers.{
  reset, pre_exec, check_and_raise_int, pending_int, int2index, post_exec,
}
use hdu_cpu_lab.Core.Alu.{alu_exec, alu_switch}
use hdu_cpu_lab.Core.Decode.{opimm_op}
use hdu_cpu_lab.Core.{
  rv_core, jump, exec, execute, finish, decode_exec, fetch, interrupts, exec_alu_imm,
}
use hdu_cpu_lab.Sram.{update_input, update_output}
use hdu_cpu_lab.Sram.Slave.{beat, inst_channel, data_channel}
use hdu_cpu_lab.Sim.{cemu_system_bus, rtl_xbar, number_gprs}
use hdu_cpu_lab.Sim.Tick.{
  clock_design, drive, count_performance, retire, count_pc, differs, compare_retired, delay_slots,
  advance,
}
use hdu_cpu_lab.Examples.{unset}

abbrev blank : Uninitialised
blank = record {
  core = unset;
  cemu_mem = λ _. 0;
  rtl_mem = λ _. 0;
  lr_pa = 0;
  lr_size = 0;
  lr_hart = 0;
  misa = 0;
  tlb = [];
}

-- `addi x1, x0, 5` and `ecall`.
abbrev program : List ℕ
program = 0x93 ∷ 0x00 ∷ 0x50 ∷ 0x00 ∷ 0x73 ∷ 0x00 ∷ 0x00 ∷ 0x00 ∷ []

abbrev ports : Ports
ports = record {
  clock = false;
  reset = false;
  sram = nscscc_sram;
  debug_commit = false;
  debug_pc = 0;
  debug_rf_wnum = 0;
  debug_rf_wdata = 0;
}

-- The design counts its calls. Call 11 is the second one in the first cycle without reset.
abbrev design : Vtop ℕ
design = record {
  eval = λ p n. (
    record p {
      debug_commit = n == 11;
      debug_pc = 0x80000000;
      debug_rf_wnum = 1;
      debug_rf_wdata = 5;
    },
    n + 1,
  );
  got_finish = λ n. leb 12 n;
}

-- A design that does nothing.
abbrev idle : Vtop ℕ
idle = record { eval = λ p n. (record p { debug_commit = false }, n + 1); got_finish = λ n. false }

abbrev first : Sim ℕ
first =
    at_start flags 1500 true ports 0 (cemu_rvcore flags blank (cemu_bus blank program))
      (rtl_bus blank program)

setup-IsReady_example :
    (s : Sim ℕ) × (setup flags blank program 1500 true ports 0 ≡ some s) × IsReady flags true s
setup-IsReady_example = setup-IsReady flags blank program 1500 true ports 0

same_program_example :
    (pa_read (mem_base + 4) 4 first.core.priv.mmu.bus
      ≡ ret (some (file_bytes program 4 4)) first.core.priv.mmu.bus)
    × (Xbar.do_read (mem_base + 4) 4 (0 ∷ 0 ∷ 0 ∷ 0 ∷ []) first.mmio.impl
        ≡ ret (file_bytes program 4 4) first.mmio.impl)
same_program_example =
    same_program flags blank program 1500 true ports 0 first 4 4 (0 ∷ 0 ∷ 0 ∷ 0 ∷ [])
      (setup_lem blank program flags 1500 true ports 0) (inl refl) refl refl (omega arith)
      (omega arith)

hung-Ends_example :
    Ends idle (λ _. Unit {0}) (loop idle (test_round idle flags) 3000 first)
    × Ends idle (λ _. Unit {0}) (loop idle (trace_round idle flags) 3000 first)
hung-Ends_example =
    hung-Ends idle (λ _. Unit {0}) flags 3000 first
      (record { silent = λ p n h. refl; stays = λ p n h. tt }) tt (omega arith, omega arith)
      (omega arith) (omega arith)

-- The state that a loop comes back with.
abbrev state_of : Option (Ran (Sim ℕ) Bool) → Sim ℕ
state_of (some (ret b s)) = s
state_of (some abort) = first
state_of (some (exits n)) = first
state_of none = first

abbrev last : Sim ℕ
last = state_of (some (loop design (test_round design flags) 12 first))

run_results :
    (loop design (test_round design flags) 12 first ≡ ret true last)
    × (riscv_test_run design flags blank program 12 true ports 0 ≡ some (ret true last))
    × (last.mmio.running ≡ true)
    × (last.core.gpr 1 ≡ 5)
unfolding loop test_round clock_design drive beat inst_channel data_channel count_performance retire
    count_pc differs compare_retired delay_slots advance flags nscscc_sram update_input
    update_output cemu_rvcore cemu_system_bus rtl_xbar number_gprs mmio_mem_file mmio_mem rv_core
    jump exec within pre_exec check_and_raise_int pending_int int2index reset va_if va_if_once
    access pa_read route before_upper do_read read_bytes write_bytes from_bytes post_exec execute
    finish decode_exec fetch interrupts exec_alu_imm alu_exec alu_switch opimm_op rv_sv39
    riscv_test_run setup Bus.add_dev Xbar.add_dev
run_results = (refl, refl, refl, refl)

loop-follows_example : Followed design flags (test_round design flags) first last
unfolding flags
loop-follows_example =
    loop-follows design flags (test_round design flags) 12 first last true refl refl (inl refl) refl
      run_results.0 run_results.2

runs-IsKept_example : IsKept last.core × (true ≡ false → last.mmio.running ≡ false)
runs-IsKept_example =
    runs-IsKept design flags blank program 12 true ports 0 true last (inl run_results.1)
