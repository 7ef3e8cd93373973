-- ===== src/Examples/Cores.antt =====
-- Instructions, traps and registers of the machine of Examples.antt.
use hdu_cpu_lab.Common.{◌⊎◌, ℕ, ◌-◌, ◌^◌, ◌≡◌, inl, inr, refl, Bool, true, false, some, arith}
use hdu_cpu_lab.Common.Bytes.{read_bytes, from_bytes}
use hdu_cpu_lab.Common.Words.{test_bit}
use hdu_cpu_lab.Common.Run.{within, ret}
use hdu_cpu_lab.Device.Mem
use hdu_cpu_lab.Device.Mem.Laws.{mem_dev}
use hdu_cpu_lab.Bus.{route, pa_read}
use hdu_cpu_lab.Bus.Table.{before_upper}
use hdu_cpu_lab.Priv.Codes.{exc_illegal_instr, u_mode, mie, bit}
use hdu_cpu_lab.Priv.Interrupts.{pending_int-test_bit}
use hdu_cpu_lab.Priv.{access}
use hdu_cpu_lab.Priv.CsrFile.{write_mstatus, csr_mstatus, csr_mepc, csr_read, csr_write}
use hdu_cpu_lab.Priv.CsrRoundTrip.{csr_read-csr_write}
use hdu_cpu_lab.Priv.Invariant.{IsSane}
use hdu_cpu_lab.Priv.Memory
use hdu_cpu_lab.Priv.Memory.{va_if, va_if_once}
use hdu_cpu_lab.Priv.Operated.{Operated, resets, writes, post_exec-Operated}
use hdu_cpu_lab.Priv.Registers.{
  Csrs, reset, pre_exec, check_and_raise_int, pending_int, int2index, post_exec, raise_trap,
  trap_to_machine, mret, sret,
}
use hdu_cpu_lab.Priv.Trap.{
  IsTrapped, IsResumed, next_instr, raise_trap-IsTrapped, mret_resumes, trapped-no_int,
}
use hdu_cpu_lab.Core.Compressed.{exec_rvc}
use hdu_cpu_lab.Core.Expand.{exec_rvc-Expands}
use hdu_cpu_lab.Core.Formats.{c_lw}
use hdu_cpu_lab.Core.Alu.{alu_exec, alu_switch, alu_slt}
use hdu_cpu_lab.Core.Alu.Laws.{compares_signed}
use hdu_cpu_lab.Core.Confined.{user_confined}
use hdu_cpu_lab.Core.Decode.{opimm_op}
use hdu_cpu_lab.Core.Jump.{branch_taken}
use hdu_cpu_lab.Core.State.{Core, illegal}
use hdu_cpu_lab.Core.System.{exec_csr}
use hdu_cpu_lab.Core.Kept.{IsKept}
use hdu_cpu_lab.Core.{
  rv_core, jump, exec, execute, finish, decode_exec, fetch, interrupts, exec_alu_imm,
}
use hdu_cpu_lab.Core.Step.{Reached, starts, jumps_to, executes, Reached-IsKept}
use hdu_cpu_lab.Examples.{config, unset, mmu, at_start, after_addi}

addi-Reached : Reached config after_addi
unfolding exec rv_core jump within pre_exec check_and_raise_int pending_int int2index reset va_if
    va_if_once access pa_read route before_upper Mem.do_read read_bytes from_bytes post_exec execute
    finish decode_exec fetch interrupts exec_alu_imm alu_exec alu_switch opimm_op
addi-Reached =
    executes false false false false at_start after_addi
      (jumps_to 0x80000000 (rv_core config 0 0 unset mmu) (starts 0 0 unset mmu)) refl

Reached-IsKept_example : IsKept after_addi
Reached-IsKept_example = Reached-IsKept config after_addi addi-Reached

abbrev registers : Csrs
registers = record (reset config 0 0) { mtvec = 0x80000100; status = 8 }

registers-IsSane : IsSane registers
unfolding reset
registers-IsSane = record {
  medeleg_zero = refl;
  mideleg_zero = refl;
  satp_zero = refl;
  cur_mode = inr refl;
  next_mode = inr refl;
  status_ok = record {
    b0 = refl;
    b1 = refl;
    b2 = refl;
    b3 = refl;
    b4 = refl;
    spp_user = refl;
    mpp_mode = inl refl;
  };
}

abbrev trapped : Csrs
trapped = trap_to_machine 0x80000000 exc_illegal_instr false 0 registers

raise_trap-IsTrapped_example : IsTrapped 0x80000000 exc_illegal_instr false 0 registers trapped
unfolding raise_trap trap_to_machine reset
raise_trap-IsTrapped_example =
    raise_trap-IsTrapped 0x80000000 exc_illegal_instr false 0 registers trapped registers-IsSane
      refl

trapped-IsTrapped : IsTrapped 0x80000000 exc_illegal_instr false 0 registers trapped
unfolding raise_trap trap_to_machine reset
trapped-IsTrapped =
    raise_trap-IsTrapped 0x80000000 exc_illegal_instr false 0 registers trapped registers-IsSane
      refl

mret_resumes_example :
    (mret (next_instr trapped)).0 ≡ true
    × IsResumed 0x80000000 registers (mret (next_instr trapped)).1
mret_resumes_example =
    mret_resumes 0x80000000 exc_illegal_instr false 0 registers trapped trapped-IsTrapped

trapped-no_int_example :
    check_and_raise_int trapped.trap_pc (next_instr trapped) ≡ ret tt (next_instr trapped)
trapped-no_int_example =
    trapped-no_int 0x80000000 exc_illegal_instr false 0 registers trapped trapped-IsTrapped

-- All ones written to mstatus.
abbrev filled : Csrs
filled = record (reset config 0 0) {
  status = write_mstatus config (reset config 0 0).status (2 ^ 64 - 1);
}

filled-Operated : Operated config filled
unfolding csr_write
filled-Operated = writes csr_mstatus (2 ^ 64 - 1) true (reset config 0 0) filled (resets 0 0) refl

post_exec-Operated_example :
    post_exec filled ≡ ret tt (record filled { minstret = 1; cur_need_trap = false })
unfolding reset
post_exec-Operated_example = post_exec-Operated config filled filled-Operated

csr_read-csr_write_example :
    csr_read csr_mepc (record registers { mepc = 0x80000004 }) ≡ some 0x80000004
unfolding csr_write
csr_read-csr_write_example =
    csr_read-csr_write config csr_mepc csr_mepc 0x80000004 registers
      (record registers { mepc = 0x80000004 }) (inr (inl refl)) (inr (inl refl)) refl

abbrev in_user : Core Mem.Mem
in_user = record at_start {
  priv = record at_start.priv { csrs = record registers { cur_priv = 0 } };
}

user_confined_example :
    ((always : Bool) (new : ℕ → ℕ) (inst : ℕ)
      → exec_csr config always new inst in_user ≡ ret illegal in_user)
    × (mret in_user.priv.csrs ≡ (false, in_user.priv.csrs))
    × (sret in_user.priv.csrs ≡ (false, in_user.priv.csrs))
    × ((vaddr asid : ℕ) → Memory.sfence_vma vaddr asid in_user.priv ≡ ret false in_user.priv)
user_confined_example = user_confined config in_user refl

-- -1 is below 1.
compares_signed_example :
    (alu_exec (2 ^ 64 - 1) 1 alu_slt false ≡ some 1)
    × (branch_taken 0b100 (2 ^ 64 - 1) 1 ≡ some true)
    × (branch_taken 0b101 (2 ^ 64 - 1) 1 ≡ some false)
compares_signed_example = compares_signed (2 ^ 64 - 1) 1 (omega arith) (omega arith)

-- A timer interrupt is pending and enabled.
abbrev ticking : Csrs
ticking = record registers { ip = 128; ie = 128 }

ticking-IsSane : IsSane ticking
ticking-IsSane = record {
  medeleg_zero = registers-IsSane.medeleg_zero;
  mideleg_zero = registers-IsSane.mideleg_zero;
  satp_zero = registers-IsSane.satp_zero;
  cur_mode = registers-IsSane.cur_mode;
  next_mode = registers-IsSane.next_mode;
  status_ok = registers-IsSane.status_ok;
}

pending_int-test_bit_example :
    (test_bit 128 7 ≡ true)
    × (test_bit 128 7 ≡ true)
    × ((ticking.cur_priv ≡ u_mode) ⊎ (bit ticking.status mie ≡ 1))
unfolding pending_int int2index reset
pending_int-test_bit_example = pending_int-test_bit ticking ticking-IsSane (λ h. omega arith)

-- C.LW of register 9 from 68 bytes behind register 10, and LW of the same.
exec_rvc-Expands_example : exec_rvc config 0x4164 at_start ≡ execute config 0x04452483 at_start
exec_rvc-Expands_example =
    exec_rvc-Expands config at_start 0x4164 0x04452483
      (c_lw 68 2 1 (omega arith) refl (omega arith) (omega arith))
