-- ===== src/Core/Kept.antt =====
-- Traps, jumps and memory in difftest/src/rv_core.hpp: what they do to the registers.
use hdu_cpu_lab.Common.{
  ℕ, ◌≡◌, Bool, true, false, not, ◌==◌, ◌%◌, ◌+◌, ◌≤◌, length, Option, none, some, List, [], ◌∷◌,
  ◌++◌, refl, sym, ap, ◌∙◌, subst, if◌then◌else◌, arith,
}
use mathlib.Core.Option.{some_inj}
use hdu_cpu_lab.Common.Words.{u64, sext}
use hdu_cpu_lab.Common.Bytes.{from_bytes, to_bytes}
use hdu_cpu_lab.Common.Run.{
  Ran, ret, abort, ◌>>◌, Preserves, ret-Preserves, >>=-Preserves, within-Preserves, if-Preserves,
  choose-Preserves, abort-Preserves, set-Preserves, ret-inj,
}
use hdu_cpu_lab.Device.{MmioDev}
use hdu_cpu_lab.Priv.{Priv, Access, okay, exc, on_csrs, set_csrs}
use hdu_cpu_lab.Priv.Codes.{exc_instr_misalign, exc_load_misalign, exc_store_misalign}
use hdu_cpu_lab.Priv.Registers.{Config, Csrs}
use hdu_cpu_lab.Priv.Invariant.{IsSane}
use hdu_cpu_lab.Priv.Protect.{raise_trap-IsSane}
use hdu_cpu_lab.Priv.Untouched.{OnCsrs, va_read-OnCsrs, va_write-OnCsrs}
use hdu_cpu_lab.Core.Fields.{rd_of, rs1_of, rs2_of, funct3_of, b_imm, j_imm}
use hdu_cpu_lab.Core.State.{
  Core, Flow, falls_through, jumps, illegal, set_gpr, set_priv, on_priv, writes, trap, mem_read,
  mem_write, load_as, load_switch, store_as, store_switch, drain, dump_pc_history, alu_writes,
  shorten, remember, trace_size,
}
use hdu_cpu_lab.Core.Jump.{
  jalr_imm, link_to, exec_jal, exec_jalr, branch_taken, branch_to, exec_branch,
}

-- The registers of a core: those of rv_priv are well formed, and register 0 is 0. The histories hold
-- `trace_size` entries at most.
pub record IsKept {D : Type 0} (c : Core D) : Type 0 where
  pub csrs_sane : IsSane c.priv.csrs
  pub x0_zero : c.gpr 0 ≡ 0
  pub short_trace : length c.trace ≤ trace_size
  pub short_inst_trace : length c.inst_trace ≤ trace_size

shorten-le : (xs : List ℕ) → length (shorten xs) ≤ trace_size
unfolding shorten
shorten-le [] = omega arith
shorten-le (x ∷ xs) = let ih = shorten-le xs in ground arith

pub remember-le : (x : ℕ) (xs : List ℕ) → length (remember x xs) ≤ trace_size
unfolding remember
remember-le x xs = shorten-le (xs ++ x ∷ [])

drain-le :
    (pcs insts : List ℕ) {rest : List ℕ} → drain pcs insts ≡ some rest → length rest ≤ length insts
unfolding drain
drain-le [] insts e = let q = ap length (some_inj.0 e) in omega arith
drain-le (pc ∷ pcs) [] e = cc
drain-le (pc ∷ pcs) (inst ∷ insts) e = let q = drain-le pcs insts e in omega arith

module _ {D : Type 0} where
  -- The rest of the object does not matter.
  pub same-IsKept :
      {c d : Core D}
      → d.priv.csrs ≡ c.priv.csrs
      → d.gpr 0 ≡ c.gpr 0
      → d.trace ≡ c.trace
      → d.inst_trace ≡ c.inst_trace
      → IsKept c
      → IsKept d
  same-IsKept p x t i k = record {
    csrs_sane = subst IsSane (sym p) k.csrs_sane;
    x0_zero = x ∙ k.x0_zero;
    short_trace = let q = ap length t in let b = k.short_trace in omega arith;
    short_inst_trace = let q = ap length i in let b = k.short_inst_trace in omega arith;
  }

  pub set_gpr-IsKept : (index value : ℕ) (c : Core D) → IsKept c → IsKept (set_gpr index value c)
  set_gpr-IsKept index value c h = record {
    csrs_sane = h.csrs_sane;
    x0_zero = let z = h.x0_zero in ground arith;
    short_trace = h.short_trace;
    short_inst_trace = h.short_inst_trace;
  }

  pub writes-IsKept : (rd value : ℕ) → Preserves {S = Core D} IsKept (writes rd value)
  writes-IsKept rd value = set-Preserves IsKept falls_through _ (set_gpr-IsKept rd value)

  pub alu_writes-IsKept :
      (rd : ℕ) (result : Option ℕ) → Preserves {S = Core D} IsKept (alu_writes rd result)
  alu_writes-IsKept rd none = abort-Preserves IsKept
  alu_writes-IsKept rd (some result) = writes-IsKept rd result

  pub on_priv-IsKept :
      {A : Type 0} (m : Priv D → Ran (Priv D) A)
      → Preserves (OnCsrs IsSane) m
      → Preserves IsKept (on_priv m)
  on_priv-IsKept m h =
      within-Preserves (OnCsrs IsSane) IsKept (λ c. c.priv) set_priv m (λ c k. k.csrs_sane)
        (λ p c k sane. record {
          csrs_sane = sane;
          x0_zero = k.x0_zero;
          short_trace = k.short_trace;
          short_inst_trace = k.short_inst_trace;
        })
        h

  pub on_csrs-IsKept :
      {A : Type 0} (m : Csrs → Ran Csrs A)
      → Preserves IsSane m
      → Preserves {S = Core D} IsKept (on_priv (on_csrs m))
  on_csrs-IsKept m h =
      on_priv-IsKept _ (
        within-Preserves IsSane (OnCsrs IsSane) (λ p. p.csrs) set_csrs m (λ t q. q) (λ s t q p. p)
          h)

  pub trap-IsKept : (code tval : ℕ) → Preserves {S = Core D} IsKept (trap code tval)
  unfolding trap
  trap-IsKept code tval c = on_csrs-IsKept _ (raise_trap-IsSane c.pc code false tval) c

  pub dump_pc_history-IsKept : Preserves {S = Core D} IsKept dump_pc_history
  unfolding dump_pc_history
  dump_pc_history-IsKept c a u k = go (drain c.trace c.inst_trace) refl
    where
      go :
          (o : Option (List ℕ))
          → drain c.trace c.inst_trace ≡ o
          → (elim o [
            | none ↦ abort
            | some insts ↦ ret tt (record c { trace = []; inst_trace = insts })
          ])
            ≡ ret a u
          → IsKept u
      go none e h = cc
      go (some insts) e h =
          let q = drain-le c.trace c.inst_trace e in
          let b = k.short_inst_trace in
          subst IsKept (sym (ret-inj h)) (record {
            csrs_sane = k.csrs_sane;
            x0_zero = k.x0_zero;
            short_trace = omega arith;
            short_inst_trace = omega arith;
          })

  pub traps-IsKept :
      {A : Type 0} (code tval : ℕ) (a : A)
      → Preserves {S = Core D} IsKept (do trap code tval; ret a)
  traps-IsKept code tval a =
      >>=-Preserves IsKept _ _ (trap-IsKept code tval) (λ _. ret-Preserves IsKept a)

module _ {D : Type 0} where
  pub link_to-IsKept : (rd npc : ℕ) → Preserves {S = Core D} IsKept (link_to rd npc)
  unfolding link_to
  link_to-IsKept rd npc =
      if-Preserves IsKept (not (npc % 4 == 0)) _ _
        (traps-IsKept exc_instr_misalign npc falls_through) (set-Preserves IsKept jumps _ linked)
    where
      linked :
          (c : Core D)
          → IsKept c
          → IsKept (record (set_gpr rd (u64 (c.pc + 4)) c) { pc = npc; debug_is_branch = true })
      linked c k =
          let s = set_gpr-IsKept rd (u64 (c.pc + 4)) c k in same-IsKept refl refl refl refl s

  pub exec_jal-IsKept : (inst : ℕ) → Preserves {S = Core D} IsKept (exec_jal inst)
  unfolding exec_jal
  exec_jal-IsKept inst c = link_to-IsKept (rd_of inst) (u64 (c.pc + j_imm inst)) c

  pub exec_jalr-IsKept : (inst : ℕ) → Preserves {S = Core D} IsKept (exec_jalr inst)
  unfolding exec_jalr
  exec_jalr-IsKept inst c =
      link_to-IsKept (rd_of inst) (u64 (c.gpr (rs1_of inst) + jalr_imm inst)) c

  branch_to-IsKept : (npc : ℕ) → Preserves {S = Core D} IsKept (branch_to npc)
  branch_to-IsKept npc =
      choose-Preserves IsKept (not (npc % 4 == 0)) _ _ (traps-IsKept exc_instr_misalign npc jumps)
        (set-Preserves IsKept jumps _ (λ c k. same-IsKept refl refl refl refl k))

  pub exec_branch-IsKept : (inst : ℕ) → Preserves {S = Core D} IsKept (exec_branch inst)
  unfolding exec_branch
  exec_branch-IsKept inst c b u k =
      go (branch_taken (funct3_of inst) (c.gpr (rs1_of inst)) (c.gpr (rs2_of inst)))
    where
      npc : ℕ
      npc = u64 (c.pc + b_imm inst)

      go :
          (x : Option Bool)
          → (elim x [
            | none ↦ ret illegal c
            | some taken ↦
                if taken
                then branch_to npc (record c { debug_is_branch = true })
                else ret falls_through c
          ])
            ≡ ret b u
          → IsKept u
      go none = ret-Preserves IsKept illegal c b u k
      go (some true) = branch_to-IsKept npc _ b u (same-IsKept refl refl refl refl k)
      go (some false) = ret-Preserves IsKept falls_through c b u k

module _ {D : Type 0} ⦃dev : MmioDev D⦄ where
  pub mem_read-IsKept :
      (start_addr size : ℕ) → Preserves {S = Core D} IsKept (mem_read start_addr size)
  unfolding mem_read
  mem_read-IsKept start_addr size =
      choose-Preserves IsKept (not (start_addr % size == 0)) _ _
        (traps-IsKept exc_load_misalign start_addr none)
        (>>=-Preserves IsKept _ _ (on_priv-IsKept _ (va_read-OnCsrs IsSane start_addr size)) answer)
    where
      answer :
          (r : Access (List ℕ))
          → Preserves {S = Core D} {A = Option (List ℕ)} IsKept (elim r [
            | okay bytes ↦ ret (some bytes)
            | exc code ↦ do trap code start_addr; ret none
          ])
      answer (okay bytes) = ret-Preserves IsKept (some bytes)
      answer (exc code) = traps-IsKept code start_addr none

  pub mem_write-IsKept :
      (config : Config) (start_addr size : ℕ) (buffer : List ℕ)
      → Preserves {S = Core D} IsKept (mem_write config start_addr size buffer)
  unfolding mem_write
  mem_write-IsKept config start_addr size buffer =
      choose-Preserves IsKept (not (start_addr % size == 0)) _ _
        (traps-IsKept exc_store_misalign start_addr false)
        (>>=-Preserves IsKept _ _
          (on_priv-IsKept _ (va_write-OnCsrs IsSane config start_addr size buffer)) answer)
    where
      answer :
          (r : Access (Unit {0}))
          → Preserves {S = Core D} {A = Bool} IsKept
              (elim r [ okay _ ↦ ret true | exc code ↦ do trap code start_addr; ret false ])
      answer (okay _) = ret-Preserves IsKept true
      answer (exc code) = traps-IsKept code start_addr false

  pub load_as-IsKept :
      (size : ℕ) (extend : ℕ → ℕ) (rd mem_addr : ℕ)
      → Preserves {S = Core D} IsKept (load_as size extend rd mem_addr)
  load_as-IsKept size extend rd mem_addr =
      >>=-Preserves IsKept _ _ (mem_read-IsKept mem_addr size) loaded
    where
      loaded :
          (read : Option (List ℕ))
          → Preserves {S = Core D} {A = Flow} IsKept (elim read [
            | some bytes ↦ writes rd (extend (from_bytes bytes))
            | none ↦ ret falls_through
          ])
      loaded none = ret-Preserves IsKept falls_through
      loaded (some bytes) = writes-IsKept rd (extend (from_bytes bytes))

  pub load_switch-IsKept :
      (funct3 rd mem_addr : ℕ) → Preserves {S = Core D} IsKept (load_switch funct3 rd mem_addr)
  unfolding load_switch
  load_switch-IsKept funct3 rd a = choose-Preserves IsKept _ _ _ (load_as-IsKept 1 (sext 8) rd a) (
      choose-Preserves IsKept _ _ _ (load_as-IsKept 2 (sext 16) rd a) (
        choose-Preserves IsKept _ _ _ (load_as-IsKept 4 (sext 32) rd a) (
          choose-Preserves IsKept _ _ _ (load_as-IsKept 8 (λ x. x) rd a) (
            choose-Preserves IsKept _ _ _ (load_as-IsKept 1 (λ x. x) rd a) (
              choose-Preserves IsKept _ _ _ (load_as-IsKept 2 (λ x. x) rd a) (
                choose-Preserves IsKept _ _ _ (load_as-IsKept 4 (λ x. x) rd a)
                  (ret-Preserves IsKept illegal)))))))

  pub store_as-IsKept :
      (config : Config) (size mem_addr value : ℕ)
      → Preserves {S = Core D} IsKept (store_as config size mem_addr value)
  store_as-IsKept config size mem_addr value =
      >>=-Preserves IsKept _ _ (mem_write-IsKept config mem_addr size (to_bytes 8 value))
        (λ _. ret-Preserves IsKept falls_through)

  pub store_switch-IsKept :
      (config : Config) (funct3 mem_addr value : ℕ)
      → Preserves {S = Core D} IsKept (store_switch config funct3 mem_addr value)
  unfolding store_switch
  store_switch-IsKept config funct3 a v =
      choose-Preserves IsKept _ _ _ (store_as-IsKept config 1 a v) (
        choose-Preserves IsKept _ _ _ (store_as-IsKept config 2 a v) (
          choose-Preserves IsKept _ _ _ (store_as-IsKept config 4 a v) (
            choose-Preserves IsKept _ _ _ (store_as-IsKept config 8 a v)
              (ret-Preserves IsKept illegal))))
