-- ===== src/Core/Step.antt =====
-- `exec` of difftest/src/rv_core.hpp: what it does to the registers.
use hdu_cpu_lab.Common.{
  arith, ℕ, ◌≡◌, refl, Bool, true, false, not, ◌&&◌, ◌==◌, ◌%◌, ◌+◌, ◌<◌, Option, none, some, List,
  if◌then◌else◌, leb,
}
use hdu_cpu_lab.Common.Words.{u64}
use hdu_cpu_lab.Common.Bytes.{from_bytes}
use hdu_cpu_lab.Common.Run.{
  Ran, ret, exits, ◌>>=◌, ◌>>◌, Preserves, ret-Preserves, >>=-Preserves, if-Preserves,
  choose-Preserves, set-Preserves, exits-Preserves,
}
use hdu_cpu_lab.Device.{MmioDev}
use hdu_cpu_lab.Sv39.{Mmu}
use hdu_cpu_lab.Priv.{Access, okay, exc}
use hdu_cpu_lab.Priv.Codes.{exc_instr_misalign, exc_illegal_instr}
use hdu_cpu_lab.Priv.Registers.{Config, post_exec}
use hdu_cpu_lab.Priv.Invariant.{IsSane, reset-IsSane}
use hdu_cpu_lab.Priv.Protect.{
  pre_exec-IsSane, post_exec-IsSane, check_and_raise_int-IsSane, difftest_preexec-IsSane,
}
use hdu_cpu_lab.Priv.Untouched.{va_if-OnCsrs}
use hdu_cpu_lab.Core.Alu.{AluOp, alu_exec}
use hdu_cpu_lab.Core.Decode.{opimm_op, opimm32_op, op_op, op32_op}
use hdu_cpu_lab.Core.Fields.{
  opcode_lui, opcode_auipc, opcode_jal, opcode_jalr, opcode_branch, opcode_load, opcode_store,
  opcode_opimm, opcode_opimm32, opcode_op, opcode_op32, opcode_fence, opcode_system, opcode_amo,
  opcode_of, rd_of, rs1_of, rs2_of, funct3_of, i_imm, s_imm, u_imm,
}
use hdu_cpu_lab.Core.State.{
  Core, Unset, Flow, falls_through, illegal, trap, remember, set_gpr, dump_pc_history,
}
use hdu_cpu_lab.Core.{
  has_c_ext, rv_core, jump, set_difftest_mode, import_diff_test_info, exec_alu_imm, exec_alu,
  execute, finish, fetched_word, push_inst, decode_exec, fetch, interrupts, exec,
}
use hdu_cpu_lab.Core.Compressed.{exec_rvc}
use hdu_cpu_lab.Core.CompressedKept.{exec_rvc-IsKept}
use hdu_cpu_lab.Core.SystemKept.{exec_system-IsKept, exec_amo-IsKept}
use hdu_cpu_lab.Core.Kept.{
  IsKept, writes-IsKept, on_priv-IsKept, on_csrs-IsKept, trap-IsKept, exec_jal-IsKept,
  exec_jalr-IsKept, exec_branch-IsKept, load_switch-IsKept, store_switch-IsKept, same-IsKept,
  remember-le, set_gpr-IsKept, dump_pc_history-IsKept, alu_writes-IsKept,
}

module _ {D : Type 0} ⦃dev : MmioDev D⦄ where
  exec_alu_imm-IsKept :
      (op_32 : Bool) (decoded : Option (AluOp × ℕ)) (inst : ℕ)
      → Preserves {S = Core D} IsKept (exec_alu_imm op_32 decoded inst)
  unfolding exec_alu_imm
  exec_alu_imm-IsKept op_32 none inst c = ret-Preserves IsKept illegal c
  exec_alu_imm-IsKept op_32 (some (op, imm)) inst c =
      alu_writes-IsKept (rd_of inst) (alu_exec (c.gpr (rs1_of inst)) imm op op_32) c

  exec_alu-IsKept :
      (op_32 : Bool) (decoded : Option AluOp) (inst : ℕ)
      → Preserves {S = Core D} IsKept (exec_alu op_32 decoded inst)
  unfolding exec_alu
  exec_alu-IsKept op_32 none inst c = ret-Preserves IsKept illegal c
  exec_alu-IsKept op_32 (some op) inst c =
      alu_writes-IsKept (rd_of inst) (alu_exec (c.gpr (rs1_of inst)) (c.gpr (rs2_of inst)) op op_32)
        c

  execute-IsKept :
      (config : Config) (inst : ℕ) → Preserves {S = Core D} IsKept (execute config inst)
  unfolding execute
  execute-IsKept config inst c =
      case opcode_lui (writes-IsKept (rd_of inst) (u_imm inst))
        (case opcode_auipc (λ c. writes-IsKept (rd_of inst) (u64 (u_imm inst + c.pc)) c)
          (case opcode_jal (exec_jal-IsKept inst) (
            case opcode_jalr (exec_jalr-IsKept inst) (
              case opcode_branch (exec_branch-IsKept inst) (
                case opcode_load
                  (λ c.
                    load_switch-IsKept (funct3_of inst) (rd_of inst)
                      (u64 (c.gpr (rs1_of inst) + i_imm inst)) c)
                  (case opcode_store
                    (λ c.
                      store_switch-IsKept config (funct3_of inst)
                        (u64 (c.gpr (rs1_of inst) + s_imm inst)) (c.gpr (rs2_of inst)) c)
                    (case opcode_opimm (exec_alu_imm-IsKept false (opimm_op inst) inst) (
                      case opcode_opimm32 (exec_alu_imm-IsKept true (opimm32_op inst) inst) (
                        case opcode_op (exec_alu-IsKept false (op_op inst) inst) (
                          case opcode_op32 (exec_alu-IsKept true (op32_op inst) inst) (
                            case opcode_amo (exec_amo-IsKept inst) (
                              case opcode_fence (ret-Preserves IsKept falls_through) (
                                case opcode_system (exec_system-IsKept config inst)
                                  (ret-Preserves IsKept illegal))))))))))))))
        c
    where
      case :
          (n : ℕ) {m rest : Core D → Ran (Core D) Flow}
          → Preserves IsKept m
          → Preserves IsKept rest
          → Preserves IsKept (λ c. if opcode_of inst == n then m c else rest c)
      case n {m} {rest} = if-Preserves IsKept (opcode_of inst == n) m rest

  finish-IsKept :
      (cur_instr : ℕ) (is_rvc : Bool) (flow : Flow)
      → Preserves {S = Core D} IsKept (finish cur_instr is_rvc flow)
  unfolding finish
  finish-IsKept cur_instr is_rvc flow =
      >>=-Preserves IsKept _ _
        (choose-Preserves IsKept flow.ri _ _ (trap-IsKept exc_illegal_instr cur_instr)
          (ret-Preserves IsKept tt))
        (λ _.
          >>=-Preserves IsKept _ _
            (set-Preserves IsKept tt _ (λ c k. same-IsKept refl refl refl refl k))
            (λ _. on_csrs-IsKept post_exec post_exec-IsSane))

  decode_exec-IsKept :
      (config : Config) (cur_instr : ℕ)
      → Preserves {S = Core D} IsKept (decode_exec config cur_instr)
  unfolding decode_exec
  decode_exec-IsKept config cur_instr c a u k =
      if-Preserves IsKept (not (cur_instr % 4 == 3)) _ _
        (if-Preserves IsKept (not has_c_ext) (finish cur_instr true illegal)
          (do flow ← exec_rvc config cur_instr; finish cur_instr true flow)
          (finish-IsKept cur_instr true illegal)
          (>>=-Preserves IsKept _ _ (exec_rvc-IsKept config cur_instr)
            (λ flow. finish-IsKept cur_instr true flow)))
        (>>=-Preserves IsKept _ _ (execute-IsKept config cur_instr)
          (λ flow. finish-IsKept cur_instr false flow))
        _ a u (same-IsKept refl refl refl refl k)

  push_inst-IsKept : (inst : ℕ) → Preserves {S = Core D} IsKept (push_inst inst)
  push_inst-IsKept inst = set-Preserves IsKept tt _ (λ c k. record {
    csrs_sane = k.csrs_sane;
    x0_zero = k.x0_zero;
    short_trace = k.short_trace;
    short_inst_trace = remember-le inst c.inst_trace;
  })

  fetch-IsKept : (config : Config) → Preserves {S = Core D} IsKept (fetch config)
  unfolding fetch
  fetch-IsKept config c =
      if-Preserves IsKept c.priv.csrs.cur_need_trap _ _ done
        (if-Preserves IsKept (not (c.pc % 4 == 0)) _ _
          (>>=-Preserves IsKept _ _ (trap-IsKept exc_instr_misalign c.pc) (λ _. done))
          (>>=-Preserves IsKept _ _ (on_priv-IsKept _ (va_if-OnCsrs IsSane c.pc 4))
            (λ r. >>=-Preserves IsKept _ _ (push_inst-IsKept (fetched_word r.0)) (λ _. fetched r))))
        c
    where
      done : Preserves {S = Core D} IsKept (finish 0 false falls_through)
      done = finish-IsKept 0 false falls_through

      fetched :
          (r : Access (List ℕ) × ℕ)
          → Preserves {S = Core D} IsKept (elim r.0 [
            | exc code ↦ do trap code r.1; finish 0 false falls_through
            | okay bytes ↦ decode_exec config (from_bytes bytes)
          ])
      fetched (exc code, bad) = >>=-Preserves IsKept _ _ (trap-IsKept code bad) (λ _. done)
      fetched (okay bytes, bad) = decode_exec-IsKept config (from_bytes bytes)

  interrupts-IsKept :
      (meip msip mtip seip : Bool) → Preserves {S = Core D} IsKept (interrupts meip msip mtip seip)
  unfolding interrupts
  interrupts-IsKept meip msip mtip seip c =
      if-Preserves IsKept (not c.difftest_mode) _ _
        (on_csrs-IsKept _ (pre_exec-IsSane c.pc meip msip mtip seip))
        (if-Preserves IsKept c.int_allow _ _ (on_csrs-IsKept _ (check_and_raise_int-IsSane c.pc))
          (ret-Preserves IsKept tt))
        c

  pub exec-IsKept :
      (config : Config) (meip msip mtip seip : Bool)
      → Preserves {S = Core D} IsKept (exec config meip msip mtip seip)
  unfolding exec
  exec-IsKept config meip msip mtip seip c a u k =
      go (config.run_riscv_test && leb 2000000 c.priv.csrs.mcycle)
    where
      d : Core D
      d = record c {
        debug_pc = c.pc;
        debug_is_branch = false;
        debug_reg_num = 0;
        debug_reg_wdata = 0;
        trace = remember c.pc c.trace;
      }

      both : Preserves {S = Core D} IsKept (do interrupts meip msip mtip seip; fetch config)
      both =
          >>=-Preserves IsKept _ _ (interrupts-IsKept meip msip mtip seip)
            (λ _. fetch-IsKept config)

      go :
          (x : Bool)
          → (if x then exits 1 else (do interrupts meip msip mtip seip; fetch config) d) ≡ ret a u
          → IsKept u
      go true e = exits-Preserves IsKept 1 c a u k e
      go false e =
          both d a u
            (record {
              csrs_sane = k.csrs_sane;
              x0_zero = k.x0_zero;
              short_trace = remember-le c.pc c.trace;
              short_inst_trace = k.short_inst_trace;
            })
            e

  pub rv_core-IsKept :
      (config : Config) (hart_id old_misa : ℕ) (unset : Unset) (mmu : Mmu D)
      → IsKept (rv_core config hart_id old_misa unset mmu)
  unfolding rv_core
  rv_core-IsKept config hart_id old_misa unset mmu = record {
    csrs_sane = reset-IsSane config hart_id old_misa;
    x0_zero = refl;
    short_trace = omega arith;
    short_inst_trace = omega arith;
  }

-- The cores that calls of the class lead to.
pub data Reached {D : Type 0} ⦃dev : MmioDev D⦄ (config : Config) : Core D → Type 0 where
  starts :
      (hart_id old_misa : ℕ) (unset : Unset) (mmu : Mmu D)
      → Reached config (rv_core config hart_id old_misa unset mmu)
  jumps_to : (new_pc : ℕ) (c : Core D) → Reached config c → Reached config (jump new_pc c)
  set_mode :
      (value : Bool) (c : Core D) → Reached config c → Reached config (set_difftest_mode value c)
  imports :
      (mcycle minstret mip : ℕ) (interrupt_on : Bool) (c : Core D)
      → Reached config c
      → Reached config (import_diff_test_info mcycle minstret mip interrupt_on c)
  sets :
      (index value : ℕ) (c : Core D)
      → Reached config c
      → index < 32
      → Reached config (set_gpr index value c)
  dumps : (c u : Core D) → Reached config c → dump_pc_history c ≡ ret tt u → Reached config u
  executes :
      (meip msip mtip seip : Bool) (c u : Core D)
      → Reached config c
      → exec config meip msip mtip seip c ≡ ret tt u
      → Reached config u

module _ {D : Type 0} ⦃dev : MmioDev D⦄ where
  -- In every core that construction, `jump`, `set_GPR` below 32, `set_difftest_mode`,
  -- `import_diff_test_info` and calls of `exec` and `dump_pc_history` that come back lead to,
  -- register 0 is 0, neither history holds more than 32 entries, nothing is delegated to supervisor
  -- mode, satp is 0, the current and the next mode are user or machine mode, and in mstatus the
  -- reserved fields and spp are 0 and mpp is user or machine mode.
  pub Reached-IsKept : (config : Config) (c : Core D) → Reached config c → IsKept c
  unfolding jump set_difftest_mode import_diff_test_info
  Reached-IsKept config c (starts hart_id old_misa unset mmu) =
      rv_core-IsKept config hart_id old_misa unset mmu
  Reached-IsKept config c (jumps_to new_pc d r) =
      let k = Reached-IsKept config d r in same-IsKept refl refl refl refl k
  Reached-IsKept config c (set_mode value d r) =
      let k = Reached-IsKept config d r in same-IsKept refl refl refl refl k
  Reached-IsKept config c (imports mcycle minstret mip on d r) =
      let k = Reached-IsKept config d r in
      record {
        csrs_sane = difftest_preexec-IsSane mcycle minstret mip _ k.csrs_sane;
        x0_zero = k.x0_zero;
        short_trace = k.short_trace;
        short_inst_trace = k.short_inst_trace;
      }
  Reached-IsKept config c (sets index value d r _) =
      set_gpr-IsKept index value d (Reached-IsKept config d r)
  Reached-IsKept config c (dumps d u r e) =
      dump_pc_history-IsKept d tt c (Reached-IsKept config d r) e
  Reached-IsKept config c (executes meip msip mtip seip d u r e) =
      exec-IsKept config meip msip mtip seip d tt c (Reached-IsKept config d r) e
