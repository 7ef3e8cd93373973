-- ===== src/Sim/Tick.antt =====
-- One round of the loops of riscv_test_run and make_cpu_trace in difftest/src/sim_mycpu.cpp.
use hdu_cpu_lab.Common.{
  ℕ, zero, suc, ◌+◌, ◌-◌, ◌^◌, Bool, true, false, not, ◌&&◌, ◌||◌, ◌∷◌, ltb, leb, ◌==◌,
  if◌then◌else◌,
}
use hdu_cpu_lab.Common.Run.{Ran, ret, ◌>>=◌, ◌>>◌, within}
use hdu_cpu_lab.Common.Words.{u64, sub64}
use hdu_cpu_lab.Device.Mem.{Mem}
use hdu_cpu_lab.Device.Mem.Laws.{mem_dev}
use hdu_cpu_lab.Sram.{update_input, update_output}
use hdu_cpu_lab.Sram.Slave.{Slave, beat}
use hdu_cpu_lab.Sram.Xbar.{Xbar, xbar_slave}
use hdu_cpu_lab.Core.State.{Core, dump_pc_history}
use hdu_cpu_lab.Core.{exec}
use hdu_cpu_lab.Sim.Design.{Vtop}
use hdu_cpu_lab.Sim.State.{Flags, Sim, config_of, commit_timeout, print_pc_cycle}

module _ {T : Type 0} where
  abbrev pub stop : Sim T → Sim T
  stop s = record s { mmio = record s.mmio { running = false } }

  abbrev pub on_core : {A : Type 0} → (Core Mem → Ran (Core Mem) A) → Sim T → Ran (Sim T) A
  on_core = within (λ s. s.core) (λ c s. record s { core = c })

  abbrev pub on_mmio :
      {A : Type 0} → (Slave (Xbar Mem) → Ran (Slave (Xbar Mem)) A) → Sim T → Ran (Sim T) A
  on_mmio = within (λ s. s.mmio) (λ m s. record s { mmio = m })

  abbrev pub change : (Sim T → Sim T) → Sim T → Ran (Sim T) (Unit {0})
  change f s = ret tt (f s)

  -- The reset and the clock, the signals of the design taken over at a rising edge.
  unfoldable pub drive : Sim T → Sim T
  drive s =
      let reset = ltb 0 s.rst_ticks in
      let clock = not s.top.clock in
      record s {
        top = record s.top { reset = reset; clock = clock };
        rst_ticks = s.rst_ticks - 1;
        mmio =
            if clock && not reset
            then record s.mmio { pin = update_input s.top.sram s.mmio.pin }
            else s.mmio;
      }

  abbrev pub rising : Sim T → Bool
  rising s = s.top.clock && not s.top.reset

  -- The signals handed back to the design.
  abbrev pub answer : Sim T → Sim T
  answer s = record s { top = record s.top { sram = update_output s.mmio.pin s.top.sram } }

  -- The test for the retirement of an instruction.
  abbrev pub commits : Flags → Sim T → Bool
  commits o s = ((s.top.clock && not o.dual_issue) || o.dual_issue) && s.top.debug_commit

  unfoldable pub count_performance : Flags → Sim T → Sim T
  count_performance o s = record s {
    total_cycle = if not s.top.reset && s.top.clock then s.total_cycle + 1 else s.total_cycle;
    total_instr = if commits o s then s.total_instr + 1 else s.total_instr;
  }

  -- The reference model steps, but for the instruction behind a branch and the one in its delay slot.
  unfoldable pub retire : Flags → Sim T → Ran (Sim T) (Unit {0})
  retire o =
      (λ s.
        if not o.has_delayslot
        then on_core (exec (config_of o) false false false false) s
        else if s.delayslot_cnt == 0
        then (do
          on_core (exec (config_of o) false false false false)
          change (λ s. record s { delayslot_flag = true }))
            s
        else ret tt s)
      >> change (λ s. record s { last_commit = s.ticks })

  unfoldable pub count_pc : Flags → Sim T → Sim T
  count_pc o s = record s {
    pc_cnt = if leb print_pc_cycle s.pc_cnt && o.print_pc then 0 else s.pc_cnt + 1;
  }

  -- The design and the reference model disagree.
  unfoldable pub differs : Sim T → Bool
  differs s =
      (not (s.top.debug_pc == s.core.debug_pc)
        || (not (s.core.debug_reg_num == 0)
            && (not (s.top.debug_rf_wnum == s.core.debug_reg_num)
                || not (s.top.debug_rf_wdata == s.core.debug_reg_wdata))))
      && s.delayslot_cnt == 0

  abbrev pub less : ℕ → Sim T → Sim T
  less n s = record s { delay = s.delay - n }

  -- `dump_pc_history` under a test. It reads and changes the histories alone, so it does not matter
  -- what of the other variables has changed before.
  abbrev pub dump_if : (Sim T → Bool) → Sim T → Ran (Sim T) (Unit {0})
  dump_if test s = if test s then on_core dump_pc_history s else ret tt s

  -- The errors that print the histories: with a delay, the one that finds it at 10.
  abbrev pub error_dumps : Flags → Sim T → Bool
  error_dumps o s = differs s && (o.dump_pc_history && (not o.should_delay || s.delay == 10))

  abbrev pub stuck_dumps : Flags → Sim T → Bool
  stuck_dumps o s = o.dump_pc_history && leb commit_timeout (sub64 s.ticks s.last_commit)

  -- An error ends the loop at once, or after a delay. With `dump_pc_history` an error counts down once
  -- or twice, since `delay--` stands in two conditions.
  unfoldable pub compare_retired : Flags → Sim T → Sim T
  unfolding differs
  compare_retired o s =
      if not (differs s)
      then s
      else if not o.should_delay
      then stop s
      else if o.dump_pc_history
      then if s.delay == 10 then less 1 s else if s.delay == 1 then stop (less 2 s) else less 2 s
      else if s.delay == 0
      then stop (less 1 s)
      else less 1 s

  unfoldable pub delay_slots : Flags → Sim T → Sim T
  delay_slots o s =
      if o.has_delayslot
      then if s.core.debug_is_branch && s.delayslot_flag
        then record s { delayslot_cnt = 2; delayslot_flag = false }
        else record s { delayslot_cnt = s.delayslot_cnt - 1 }
      else s

  unfoldable pub log : Sim T → Sim T
  log s = record s {
    trace_file =
        record {
          pc = s.core.debug_pc;
          reg_num = s.core.debug_reg_num;
          reg_wdata = s.core.debug_reg_wdata;
        }
        ∷ s.trace_file;
  }

  -- The end of a round, with the test for a design that is stuck.
  unfoldable pub advance : Flags → Sim T → Sim T
  advance o s =
      let t = record s {
        sim_time = if o.trace_on then s.sim_time - 1 else s.sim_time;
        ticks = u64 (s.ticks + 1);
      } in
      if leb commit_timeout (sub64 t.ticks t.last_commit) then stop t else t

module _ {T : Type 0} (vtop : Vtop T) (o : Flags) where
  abbrev pub eval : Sim T → Sim T
  eval s = let (top, rest) = vtop.eval s.top s.rest in record s { top = top; rest = rest }

  -- Up to the second `eval`.
  unfoldable pub clock_design : Sim T → Ran (Sim T) (Unit {0})
  unfolding drive
  clock_design = change (λ s. eval (drive s)) >> λ s.
      if rising s then (do on_mmio beat; change (λ s. eval (answer s))) s else ret tt s

  -- A round of riscv_test_run.
  unfoldable pub test_round : Sim T → Ran (Sim T) (Unit {0})
  unfolding clock_design count_performance retire count_pc compare_retired delay_slots advance
  test_round = do
    clock_design
    change (count_performance o)
    (λ s.
        if commits o s
        then (do
          retire o
          dump_if (error_dumps o)
          change (λ s. delay_slots o (compare_retired o (count_pc o s))))
            s
        else ret tt s)
    change (advance o)
    dump_if (stuck_dumps o)

  -- A round of make_cpu_trace.
  unfoldable pub trace_round : Sim T → Ran (Sim T) (Unit {0})
  unfolding clock_design retire compare_retired delay_slots log advance
  trace_round = do
    clock_design
    (λ s.
        if commits o s
        then (do
          retire o
          dump_if (error_dumps o)
          change (λ s. log (delay_slots o (compare_retired o s))))
            s
        else ret tt s)
    change (advance o)
    dump_if (stuck_dumps o)

-- `x > 0` for a long, as a 64-bit pattern.
abbrev pub positive : ℕ → Bool
positive x = ltb 0 x && ltb x (2 ^ 63)

module _ {T : Type 0} (vtop : Vtop T) where
  -- The test of the loops.
  abbrev pub goes_on : Sim T → Bool
  goes_on s = not (vtop.got_finish s.rest) && positive s.sim_time && s.mmio.running

  -- The loops, of `fuel` rounds at most: the result is true if the loop ended by its test.
  unfoldable pub loop : (Sim T → Ran (Sim T) (Unit {0})) → ℕ → Sim T → Ran (Sim T) Bool
  loop round zero s = ret (not (goes_on s)) s
  loop round (suc fuel) s = elim (goes_on s) [
    | true ↦ (round >>= λ _. loop round fuel) s
    | false ↦ ret true s
  ]
