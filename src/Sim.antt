-- ===== src/Sim.antt =====
-- difftest/src/sim_mycpu.cpp: the design under test beside the reference model.
pub mod Design
pub mod State
pub mod Tick
pub mod Setup
pub mod Loading
pub mod Kept
pub mod Stuck
pub mod Timeout
pub mod Lockstep
pub mod Follow
pub mod Refine
pub mod Sound
pub mod CommandLine
use hdu_cpu_lab.Common.{
  ℕ, zero, suc, ◌+◌, ◌^◌, Bool, true, false, not, ◌&&◌, Option, none, some, List, [], ◌∷◌, ◌==◌,
  if◌then◌else◌,
}
use Prim.Native.String.{String}
use hdu_cpu_lab.Common.Run.{Ran, ret, abort, exits, ◌>>=◌}
use hdu_cpu_lab.Device.Mem.{Mem, mmio_mem_file}
use hdu_cpu_lab.Device.Mem.Laws.{mem_dev}
use hdu_cpu_lab.Bus
use hdu_cpu_lab.Sv39.{Mmu}
use hdu_cpu_lab.Sv39.Tlb.{TlbEntry, rv_sv39}
use hdu_cpu_lab.Sram.{SramPtr, check, nscscc_sram}
use hdu_cpu_lab.Sram.Slave.{Slave}
use hdu_cpu_lab.Sram.Xbar
use hdu_cpu_lab.Core.State.{Core, Unset, set_gpr}
use hdu_cpu_lab.Core.{rv_core, jump}
use Design.{Ports, Vtop}
use CommandLine.{RunMode, nop, riscv_test, cpu_trace, Options, no_options, parse}
use State.{Flags, Sim, config_of, print_pc_cycle}
use Tick.{test_round, trace_round, loop}

-- What the C++ objects hold before anything is written to them: two arrays of 128 MB, the pointers
-- behind the device numbers that are not in use, the reservation, the registers, the members of the
-- core that its constructor leaves, and the TLB.
pub record Uninitialised : Type 0 where
  pub cemu_mem : ℕ → ℕ
  pub rtl_mem : ℕ → ℕ
  pub lr_pa : ℕ
  pub lr_size : ℕ
  pub lr_hart : ℕ
  pub misa : ℕ
  pub core : Unset
  pub tlb : List TlbEntry

abbrev pub mem_bytes : ℕ
mem_bytes = 2 ^ 27

abbrev pub mem_base : ℕ
mem_base = 0x80000000

abbrev pub mem_range : ℕ
mem_range = 0x80000000

-- The address bus of the reference model before and after its memory is added.
unfoldable pub cemu_system_bus : Uninitialised → List ℕ → Bus.Bus Mem
cemu_system_bus u file = record {
  devices = [];
  dev = λ _. mmio_mem_file u.cemu_mem mem_bytes file;
  lr_pa = u.lr_pa;
  lr_size = u.lr_size;
  lr_hart = u.lr_hart;
  lr_valid = false;
}

unfoldable pub rtl_xbar : Uninitialised → List ℕ → Xbar.Xbar Mem
rtl_xbar u file = record { devices = []; dev = λ _. mmio_mem_file u.rtl_mem mem_bytes file }

-- The loop that gives every register its number, with `n` registers to go.
unfoldable pub number_gprs : ℕ → ℕ → Core Mem → Core Mem
number_gprs zero i c = c
number_gprs (suc n) i c = number_gprs n (i + 1) (set_gpr i i c)

unfoldable pub cemu_rvcore : Flags → Uninitialised → Bus.Bus Mem → Core Mem
unfolding number_gprs
cemu_rvcore o u bus =
    let c =
      jump mem_base
        (rv_core (config_of o) 0 u.misa u.core (record { sv39 = rv_sv39 u.tlb; bus = bus })) in
    if o.init_gprs then number_gprs 32 0 c else c

module _ {T : Type 0} where
  -- The variables before the loop; `running` is what the assertions have left of it.
  abbrev pub at_start : Flags → ℕ → Bool → Ports → T → Core Mem → Xbar.Xbar Mem → Sim T
  at_start o delay running top rest core xbar = record {
    top = top;
    rest = rest;
    core = core;
    mmio = record { address_mask = 0xffffffff; impl = xbar; pin = nscscc_sram; running = running };
    rst_ticks = 10;
    ticks = 0;
    last_commit = 0;
    pc_cnt = print_pc_cycle;
    delayslot_cnt = 0;
    delayslot_flag = true;
    delay = delay;
    total_cycle = 0;
    total_instr = 0;
    sim_time = o.sim_time;
    trace_file = [];
  }

  -- Up to the loop: both memories are added at 0x80000000, for 2 GB. `none` is undefined behaviour.
  unfoldable pub setup : Flags → Uninitialised → List ℕ → ℕ → Bool → Ports → T → Option (Sim T)
  unfolding cemu_system_bus rtl_xbar cemu_rvcore
  setup o u file delay running top rest =
      elim (Bus.add_dev mem_base mem_range 0 false (cemu_system_bus u file)) [
        | ret ok bus ↦ elim (Xbar.add_dev mem_base mem_range 0 false (rtl_xbar u file)) [
          | ret ok' xbar ↦
              some (at_start o delay (running && ok && ok') top rest (cemu_rvcore o u bus) xbar)
          | _ ↦ none
        ]
        | _ ↦ none
      ]

module _ {T : Type 0} (vtop : Vtop T) where
  unfoldable pub riscv_test_run :
      Flags → Uninitialised → List ℕ → ℕ → Bool → Ports → T → Option (Ran (Sim T) Bool)
  unfolding setup
  riscv_test_run o u file fuel running top rest = elim (setup o u file 1500 running top rest) [
    | none ↦ none
    | some s ↦ some (loop vtop (test_round vtop o) fuel s)
  ]

  unfoldable pub make_cpu_trace :
      Flags → Uninitialised → List ℕ → ℕ → Bool → Ports → T → Option (Ran (Sim T) Bool)
  unfolding setup
  make_cpu_trace o u file fuel running top rest = elim (setup o u file 10 running top rest) [
    | none ↦ none
    | some s ↦ some (loop vtop (trace_round vtop o) fuel s)
  ]

  -- `scan` is sscanf, `read_file` the contents of a file, `ptr` what `connect_wire` makes of the
  -- design. The result is `none` for undefined behaviour before the loop.
  unfoldable pub main :
      (String → Option ℕ)
      → (String → List ℕ)
      → Uninitialised
      → SramPtr
      → List String
      → ℕ
      → Ports
      → T
      → Option (Ran (Sim T) Bool)
  unfolding parse check riscv_test_run make_cpu_trace
  main scan read_file u ptr argv fuel top rest =
      let o = parse scan argv no_options in
      elim o.run_mode [
        | nop ↦ some (exits 254)
        | riscv_test ↦ elim o.file_load_path [
          | none ↦ none
          | some path ↦ riscv_test_run o.flags u (read_file path) fuel (check ptr) top rest
        ]
        | cpu_trace ↦ elim o.file_load_path [
          | none ↦ none
          | some path ↦ make_cpu_trace o.flags u (read_file path) fuel (check ptr) top rest
        ]
      ]
