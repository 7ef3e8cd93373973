-- ===== src/Examples.antt =====
-- A small machine: a core over a bus with 16 bytes of memory at 0x80000000 that hold
-- `addi x1, x0, 5` and `ecall`.
mod Cores
mod Memories
mod Buses
mod Pages
mod Steps
mod Stores
mod Timers
mod Rounds
use hdu_cpu_lab.Common.{
  ℕ, ◌+◌, ◌-◌, ◌≤◌, ◌<◌, ◌≡◌, ◌⊎◌, inl, inr, refl, Bool, true, false, List, [], ◌∷◌, length, Option,
  none, some, arith,
}
use hdu_cpu_lab.Common.{get_or}
use hdu_cpu_lab.Common.Bytes.{read_bytes, from_bytes}
use hdu_cpu_lab.Common.Run.{within, Ran, ret, abort, exits}
use hdu_cpu_lab.Device.Mem.{Mem, do_read}
use hdu_cpu_lab.Device.Mem.Laws.{mem_dev}
use hdu_cpu_lab.Bus.{Bus, route, pa_read}
use hdu_cpu_lab.Bus.Table.{Entry, before_upper}
use hdu_cpu_lab.Sv39.{Mmu}
use hdu_cpu_lab.Sv39.Tlb.{Sv39, rv_sv39}
use hdu_cpu_lab.Priv.Registers.{
  Config, Csrs, reset, pre_exec, check_and_raise_int, pending_int, int2index, post_exec, ecall,
  raise_trap, trap_to_machine,
}
use hdu_cpu_lab.Priv.{access}
use hdu_cpu_lab.Priv.Memory.{va_if, va_if_once}
use hdu_cpu_lab.Core.Alu.{alu_exec, alu_switch}
use hdu_cpu_lab.Core.Decode.{opimm_op}
use hdu_cpu_lab.Core.System.{exec_system, exec_priv, exec_ecall}
use hdu_cpu_lab.Core.State.{Core, Unset}
use hdu_cpu_lab.Core.{
  rv_core, jump, exec, execute, finish, decode_exec, fetch, interrupts, exec_alu_imm,
}
use hdu_cpu_lab.Core.Step.{Reached, starts, jumps_to, executes}

abbrev pub config : Config
config = record { run_riscv_test = false; only_mode_m = false }

abbrev pub memory : Mem
memory = record {
  cell = λ k. get_or (0x93 ∷ 0x00 ∷ 0x50 ∷ 0x00 ∷ 0x73 ∷ 0 ∷ 0 ∷ 0 ∷ []) k 0;
  mem_size = 16;
  allow_warp = false;
  diff_mem = none;
  mismatches = [];
}

abbrev pub entry : Entry
entry = record { base = 0x80000000; limit = 0x80000010; dev = 0; raw_addr = false }

abbrev pub bus : Bus Mem
bus = record {
  devices = entry ∷ [];
  dev = λ _. memory;
  lr_pa = 0;
  lr_size = 0;
  lr_hart = 0;
  lr_valid = false;
}

abbrev pub mmu : Mmu Mem
mmu = record { sv39 = record { random = 0; tlb = [] }; bus = bus }

abbrev pub unset : Unset
unset = record {
  debug_pc = 0;
  debug_reg_num = 5;
  debug_reg_wdata = 6;
  debug_inst = 0;
  debug_is_branch = true;
  int_allow = false;
}

abbrev pub at_start : Core Mem
at_start = jump 0x80000000 (rv_core config 0 0 unset mmu)

-- The core that a call comes back with.
abbrev pub core_of : Ran (Core Mem) (Unit {0}) → Core Mem
core_of (ret a c) = c
core_of abort = at_start
core_of (exits n) = at_start

abbrev pub after_addi : Core Mem
after_addi = core_of (exec config false false false false at_start)

abbrev pub after_ecall : Core Mem
after_ecall = core_of (exec config false false false false after_addi)

addi_result : after_addi.gpr 1 ≡ 5
unfolding exec rv_core jump within pre_exec check_and_raise_int pending_int int2index reset va_if
    va_if_once access pa_read route before_upper do_read read_bytes from_bytes post_exec execute
    finish decode_exec fetch interrupts exec_alu_imm alu_exec alu_switch opimm_op
addi_result = refl

ecall_result :
    (after_ecall.pc ≡ 0)
    × (after_ecall.priv.csrs.mcause ≡ 11)
    × (after_ecall.priv.csrs.mepc ≡ 0x80000004)
unfolding exec rv_core jump within pre_exec check_and_raise_int pending_int int2index reset va_if
    va_if_once access pa_read route before_upper do_read read_bytes from_bytes post_exec execute
    finish decode_exec fetch interrupts exec_alu_imm alu_exec alu_switch opimm_op exec_system
    exec_priv exec_ecall ecall raise_trap trap_to_machine
ecall_result = (refl, refl, refl)
