-- ===== src/Core.antt =====
-- `exec` of rv_core, difftest/src/rv_core.hpp: one step of the reference processor.
pub mod Alu
pub mod Fields
pub mod State
pub mod Decode
pub mod Jump
pub mod System
pub mod Compressed
pub mod Kept
pub mod SystemKept
pub mod CompressedKept
pub mod Confined
pub mod History
pub mod Unfetched
pub mod ReadBack
pub mod Step
pub mod Expand
pub mod Formats
use hdu_cpu_lab.Common.{
  ℕ, ◌+◌, ◌%◌, ◌^◌, Bool, true, false, not, ◌&&◌, ◌||◌, Option, none, some, List, [], leb, ◌==◌,
  if◌then◌else◌,
}
use hdu_cpu_lab.Common.Words.{u64, field}
use hdu_cpu_lab.Common.Bytes.{from_bytes}
use hdu_cpu_lab.Common.Run.{Ran, ret, abort, exits, ◌>>=◌, ◌>>◌}
use hdu_cpu_lab.Device.{MmioDev}
use hdu_cpu_lab.Sv39.{Mmu}
use hdu_cpu_lab.Priv.{Priv, Access, okay, exc, on_csrs, set_csrs}
use hdu_cpu_lab.Priv.Codes.{exc_instr_misalign, exc_illegal_instr}
use hdu_cpu_lab.Priv.Memory.{va_if}
use hdu_cpu_lab.Priv.Registers.{
  Config, Csrs, reset, pre_exec, check_and_raise_int, post_exec, difftest_preexec,
}
use Alu.{AluOp, alu_exec}
use Decode.{opimm_op, opimm32_op, op_op, op32_op}
use Fields.{
  opcode_of, rd_of, rs1_of, rs2_of, funct3_of, i_imm, s_imm, u_imm, opcode_lui, opcode_auipc,
  opcode_jal, opcode_jalr, opcode_branch, opcode_load, opcode_store, opcode_opimm, opcode_opimm32,
  opcode_op, opcode_op32, opcode_fence, opcode_system, opcode_amo,
}
use Jump.{exec_jal, exec_jalr, exec_branch}
use State.{
  Core, Unset, Flow, falls_through, illegal, set_gpr, set_priv, on_priv, writes, alu_writes, trap,
  load_switch, store_switch, remember,
}
use System.{exec_system, exec_amo}
use Compressed.{exec_rvc}

-- The constructor: the debug members and `int_allow` are left as they are in memory.
-- `hasCExt`
abbrev pub has_c_ext : Bool
has_c_ext = false

unfoldable pub rv_core : {D : Type 0} → Config → ℕ → ℕ → Unset → Mmu D → Core D
rv_core config hart_id old_misa unset mmu = record {
  pc = 0;
  gpr = λ _. 0;
  priv = record { csrs = reset config hart_id old_misa; mmu = mmu };
  debug_pc = unset.debug_pc;
  debug_reg_num = unset.debug_reg_num;
  debug_reg_wdata = unset.debug_reg_wdata;
  debug_inst = unset.debug_inst;
  debug_is_branch = unset.debug_is_branch;
  int_allow = unset.int_allow;
  difftest_mode = false;
  trace = [];
  inst_trace = [];
}

unfoldable pub jump : {D : Type 0} → ℕ → Core D → Core D
jump new_pc c = record c { pc = new_pc }

unfoldable pub set_difftest_mode : {D : Type 0} → Bool → Core D → Core D
set_difftest_mode value c = record c { difftest_mode = value }

unfoldable pub import_diff_test_info : {D : Type 0} → ℕ → ℕ → ℕ → Bool → Core D → Core D
import_diff_test_info mcycle minstret mip interrupt_on c = record c {
  priv = set_csrs (difftest_preexec mcycle minstret mip c.priv.csrs) c.priv;
  int_allow = interrupt_on;
}

module _ {D : Type 0} where
  unfoldable pub exec_alu_imm : Bool → Option (AluOp × ℕ) → ℕ → Core D → Ran (Core D) Flow
  exec_alu_imm op_32 decoded inst c = elim decoded [
    | none ↦ ret illegal c
    | some (op, imm) ↦ alu_writes (rd_of inst) (alu_exec (c.gpr (rs1_of inst)) imm op op_32) c
  ]

  unfoldable pub exec_alu : Bool → Option AluOp → ℕ → Core D → Ran (Core D) Flow
  exec_alu op_32 decoded inst c = elim decoded [
    | none ↦ ret illegal c
    | some op ↦
        alu_writes (rd_of inst) (alu_exec (c.gpr (rs1_of inst)) (c.gpr (rs2_of inst)) op op_32) c
  ]

-- The buffer of the instruction after a fetch.
abbrev pub fetched_word : Access (List ℕ) → ℕ
fetched_word (exc code) = 0
fetched_word (okay bytes) = from_bytes bytes

abbrev pub push_inst : {D : Type 0} → ℕ → Core D → Ran (Core D) (Unit {0})
push_inst inst c = ret tt (record c { inst_trace = remember inst c.inst_trace })

module _ {D : Type 0} ⦃dev : MmioDev D⦄ where
  -- The switch on the operation code.
  unfoldable pub execute : Config → ℕ → Core D → Ran (Core D) Flow
  unfolding exec_alu_imm exec_alu
  execute config inst c =
      let opcode = opcode_of inst in
      if opcode == opcode_lui
      then writes (rd_of inst) (u_imm inst) c
      else if opcode == opcode_auipc
      then writes (rd_of inst) (u64 (u_imm inst + c.pc)) c
      else if opcode == opcode_jal
      then exec_jal inst c
      else if opcode == opcode_jalr
      then exec_jalr inst c
      else if opcode == opcode_branch
      then exec_branch inst c
      else if opcode == opcode_load
      then load_switch (funct3_of inst) (rd_of inst) (u64 (c.gpr (rs1_of inst) + i_imm inst)) c
      else if opcode == opcode_store
      then store_switch config (funct3_of inst) (u64 (c.gpr (rs1_of inst) + s_imm inst))
          (c.gpr (rs2_of inst)) c
      else if opcode == opcode_opimm
      then exec_alu_imm false (opimm_op inst) inst c
      else if opcode == opcode_opimm32
      then exec_alu_imm true (opimm32_op inst) inst c
      else if opcode == opcode_op
      then exec_alu false (op_op inst) inst c
      else if opcode == opcode_op32
      then exec_alu true (op32_op inst) inst c
      else if opcode == opcode_amo
      then exec_amo inst c
      else if opcode == opcode_fence
      then ret falls_through c
      else if opcode == opcode_system
      then exec_system config inst c
      else ret illegal c

  -- From the label `exception` on: the trap of an illegal instruction, the next pc, `post_exec`.
  unfoldable pub finish : ℕ → Bool → Flow → Core D → Ran (Core D) (Unit {0})
  unfolding trap
  finish cur_instr is_rvc flow = do
    (if flow.ri then trap exc_illegal_instr cur_instr else ret tt)
    (λ c. ret tt (record c {
      pc =
          if c.priv.csrs.cur_need_trap
          then c.priv.csrs.trap_pc
          else if flow.new_pc
          then c.pc
          else u64 (c.pc + (if is_rvc then 2 else 4));
    }))
    on_priv (on_csrs post_exec)

  -- The label `decode_exec`; compressed instructions are illegal without the extension.
  unfoldable pub decode_exec : Config → ℕ → Core D → Ran (Core D) (Unit {0})
  unfolding execute finish exec_rvc
  decode_exec config cur_instr c =
      let d = record c { debug_inst = cur_instr } in
      let is_rvc = not (cur_instr % 4 == 3) in
      if is_rvc
      then if not has_c_ext
        then finish cur_instr true illegal d
        else (do flow ← exec_rvc config cur_instr; finish cur_instr true flow) d
      else (do flow ← execute config cur_instr; finish cur_instr false flow) d

  unfoldable pub fetch : Config → Core D → Ran (Core D) (Unit {0})
  unfolding decode_exec
  fetch config c =
      if c.priv.csrs.cur_need_trap
      then finish 0 false falls_through c
      else if not (c.pc % 4 == 0)
      then (do trap exc_instr_misalign c.pc; finish 0 false falls_through) c
      else (do
        fetched ← on_priv (va_if c.pc 4)
        push_inst (fetched_word fetched.0)
        elim fetched.0 [
          | exc code ↦ do trap code fetched.1; finish 0 false falls_through
          | okay bytes ↦ decode_exec config (from_bytes bytes)
        ])
          c

  -- The interrupts of this step.
  unfoldable pub interrupts : Bool → Bool → Bool → Bool → Core D → Ran (Core D) (Unit {0})
  interrupts meip msip mtip seip c =
      if not c.difftest_mode
      then on_priv (on_csrs (pre_exec c.pc meip msip mtip seip)) c
      else if c.int_allow
      then on_priv (on_csrs (check_and_raise_int c.pc)) c
      else ret tt c

  -- `exec`, which `step` calls.
  unfoldable pub exec : Config → Bool → Bool → Bool → Bool → Core D → Ran (Core D) (Unit {0})
  unfolding fetch interrupts
  exec config meip msip mtip seip c =
      if config.run_riscv_test && leb 2000000 c.priv.csrs.mcycle
      then exits 1
      else (do interrupts meip msip mtip seip; fetch config)
          (record c {
            debug_pc = c.pc;
            debug_is_branch = false;
            debug_reg_num = 0;
            debug_reg_wdata = 0;
            trace = remember c.pc c.trace;
          })
