-- ===== src/Core/Unfetched.antt =====
-- Steps of difftest/src/rv_core.hpp that do not come to a fetch, and the histories.
use hdu_cpu_lab.Common.{
  ℕ, ◌+◌, ◌%◌, ◌≤◌, ◌<◌, ◌≡◌, ◌≢◌, refl, sym, ap, ◌∙◌, inl, inr, Bool, true, false, not, ◌&&◌, ◌==◌,
  leb, if◌then◌else◌, List, [], ◌∷◌, ◌++◌, length, length-append, arith,
}
use hdu_cpu_lab.Common.Run.{
  Ran, ret, abort, exits, ◌>>◌, Preserves, ret-Preserves, >>=-Preserves, if-Preserves,
  choose-Preserves, set-Preserves, within-Preserves, >>=-inv, ret≢exits,
}
use hdu_cpu_lab.Device.{MmioDev}
use hdu_cpu_lab.Priv.{Priv, on_csrs}
use hdu_cpu_lab.Priv.Codes.{exc_instr_misalign, exc_illegal_instr}
use hdu_cpu_lab.Priv.Registers.{Config, pre_exec, check_and_raise_int, post_exec}
use hdu_cpu_lab.Core.State.{
  Core, Flow, falls_through, on_priv, set_priv, trap, trace_size, shorten, remember,
  dump_pc_history,
}
use hdu_cpu_lab.Core.{finish, fetch, interrupts, exec}
use hdu_cpu_lab.Core.History.{dump_pc_history-cases}

shorten-short : (xs : List ℕ) → length xs ≤ trace_size → shorten xs ≡ xs
unfolding shorten
shorten-short [] h = refl
shorten-short (x ∷ xs) h = ground arith

-- A history that is not full grows.
remember-short :
    (x : ℕ) (xs : List ℕ) → length xs < trace_size → length (remember x xs) ≡ length xs + 1
unfolding remember
remember-short x xs h =
    let l = length-append xs (x ∷ []) in
    ap length (shorten-short (xs ++ x ∷ []) (omega arith)) ∙ omega arith

-- The histories of a core.
pub record Records {D : Type 0} (pcs insts : List ℕ) (c : Core D) : Type 0 where
  pub pcs_are : c.trace ≡ pcs
  pub insts_are : c.inst_trace ≡ insts

-- The same, at a program counter.
pub record AtPc {D : Type 0} (pc : ℕ) (pcs insts : List ℕ) (c : Core D) : Type 0 where
  pub pc_is : c.pc ≡ pc
  pub records : Records pcs insts c

module _ {D : Type 0} ⦃dev : MmioDev D⦄ (pcs insts : List ℕ) where
  abbrev P : Core D → Type 0
  P = Records pcs insts

  on_priv-Records : {A : Type 0} (m : Priv D → Ran (Priv D) A) → Preserves P (on_priv m)
  on_priv-Records m =
      within-Preserves (λ _. Unit {0}) P (λ c. c.priv) set_priv m (λ c k. tt)
        (λ p c k _. record { pcs_are = k.pcs_are; insts_are = k.insts_are }) (λ s a t p e. tt)

  trap-Records : (code tval : ℕ) → Preserves P (trap code tval)
  unfolding trap
  trap-Records code tval c = on_priv-Records _ c

  finish-Records :
      (cur_instr : ℕ) (is_rvc : Bool) (flow : Flow) → Preserves P (finish cur_instr is_rvc flow)
  unfolding finish
  finish-Records cur_instr is_rvc flow =
      >>=-Preserves P _ _
        (choose-Preserves P flow.ri _ _ (trap-Records exc_illegal_instr cur_instr)
          (ret-Preserves P tt))
        (λ _.
          >>=-Preserves P _ _
            (set-Preserves P tt _ (λ c k. record { pcs_are = k.pcs_are; insts_are = k.insts_are }))
            (λ _. on_priv-Records (on_csrs post_exec)))

  -- A step that meets a misaligned program counter or a pending trap does not fetch.
  fetch-Records :
      (config : Config) (c u : Core D)
      → not (c.pc % 4 == 0) ≡ true
      → P c
      → fetch config c ≡ ret tt u
      → P u
  unfolding fetch
  fetch-Records config c u odd k h =
      if-Preserves P c.priv.csrs.cur_need_trap _ _ (finish-Records 0 false falls_through)
        (>>=-Preserves P _ _ (trap-Records exc_instr_misalign c.pc)
          (λ _. finish-Records 0 false falls_through))
        c tt u k (rw odd at h)

module _ {D : Type 0} ⦃dev : MmioDev D⦄ (pc : ℕ) (pcs insts : List ℕ) where
  abbrev Q : Core D → Type 0
  Q = AtPc pc pcs insts

  on_priv-AtPc : {A : Type 0} (m : Priv D → Ran (Priv D) A) → Preserves Q (on_priv m)
  on_priv-AtPc m =
      within-Preserves (λ _. Unit {0}) Q (λ c. c.priv) set_priv m (λ c k. tt)
        (λ p c k _. record {
          pc_is = k.pc_is;
          records = record { pcs_are = k.records.pcs_are; insts_are = k.records.insts_are };
        })
        (λ s a t p e. tt)

  interrupts-AtPc : (meip msip mtip seip : Bool) → Preserves Q (interrupts meip msip mtip seip)
  unfolding interrupts
  interrupts-AtPc meip msip mtip seip c =
      if-Preserves Q (not c.difftest_mode) _ _
        (on_priv-AtPc (on_csrs (pre_exec c.pc meip msip mtip seip)))
        (if-Preserves Q c.int_allow _ _ (on_priv-AtPc (on_csrs (check_and_raise_int c.pc)))
          (ret-Preserves Q tt))
        c

module _ {D : Type 0} ⦃dev : MmioDev D⦄ (config : Config) (meip msip mtip seip : Bool) where
  -- The step records its program counter and no instruction.
  exec-Records :
      (c u : Core D)
      → not (c.pc % 4 == 0) ≡ true
      → exec config meip msip mtip seip c ≡ ret tt u
      → Records (remember c.pc c.trace) c.inst_trace u
  unfolding exec
  exec-Records c u odd h = go (config.run_riscv_test && leb 2000000 c.priv.csrs.mcycle) h
    where
      d : Core D
      d = record c {
        debug_pc = c.pc;
        debug_is_branch = false;
        debug_reg_num = 0;
        debug_reg_wdata = 0;
        trace = remember c.pc c.trace;
      }

      go :
          (x : Bool)
          → (if x then exits 1 else (do interrupts meip msip mtip seip; fetch config) d) ≡ ret tt u
          → Records (remember c.pc c.trace) c.inst_trace u
      go true e = absurd (ret≢exits tt u 1 (sym e))
      go false e =
          let (_, v, p, q) = >>=-inv (interrupts meip msip mtip seip) (λ _. fetch config) d e in
          let k =
            interrupts-AtPc c.pc (remember c.pc c.trace) c.inst_trace meip msip mtip seip d tt v
              (record { pc_is = refl; records = record { pcs_are = refl; insts_are = refl } }) p in
          fetch-Records (remember c.pc c.trace) c.inst_trace config v u
            (ap (λ n. not (n % 4 == 0)) k.pc_is ∙ odd) k.records q

  -- On a core whose histories are equally long and not full, a step at a misaligned program counter
  -- that comes back leaves `dump_pc_history` undefined: it calls `front` on an empty queue.
  pub unfetched-abort :
      (c u : Core D)
      → c.pc % 4 ≢ 0
      → length c.inst_trace ≡ length c.trace
      → length c.trace < trace_size
      → exec config meip msip mtip seip c ≡ ret tt u
      → dump_pc_history u ≡ abort
  unfetched-abort c u odd same room h = elim (dump_pc_history-cases u) [
    | inr (_, e) ↦ e
    | inl (enough, _) ↦
        let k = exec-Records c u (ground arith) h in
        let i = ap length k.insts_are in
        let t = ap length k.pcs_are in
        let grown = remember-short c.pc c.trace room in absurd (omega arith)
  ]
