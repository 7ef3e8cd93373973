-- ===== src/Sim/Kept.antt =====
-- The loops of difftest/src/sim_mycpu.cpp: what every round keeps of the reference model and of the
-- global `running`.
use hdu_cpu_lab.Common.{ℕ, zero, suc, ◌≡◌, refl, sym, ◌∙◌, arith, Bool, true, false, not, ◌==◌}
use hdu_cpu_lab.Common.Run.{
  Ran, ret, ◌>>=◌, Preserves, ret-Preserves, >>=-Preserves, if-Preserves, test-Preserves,
  set-Preserves,
}
use hdu_cpu_lab.Device.Mem.Laws.{mem_dev}
use hdu_cpu_lab.Sram.Slave.{beat}
use hdu_cpu_lab.Sram.Xbar.{xbar_slave}
use hdu_cpu_lab.Core.State.{dump_pc_history}
use hdu_cpu_lab.Core.{exec}
use hdu_cpu_lab.Priv.Registers.{Config}
use hdu_cpu_lab.Sim.Design.{Vtop}
use hdu_cpu_lab.Sim.State.{Flags, Sim, config_of}
use hdu_cpu_lab.Sim.Tick.{
  on_core, on_mmio, change, drive, rising, answer, commits, count_performance, retire, count_pc,
  compare_retired, delay_slots, log, advance, eval, clock_design, test_round, trace_round, goes_on,
  dump_if, error_dumps, stuck_dumps, loop,
}

-- A change of the loop's other variables: `running` may only be cleared.
pub record Continues {T : Type 0} (s t : Sim T) : Type 0 where
  pub same_core : t.core ≡ s.core
  pub was_running : t.mmio.running ≡ true → s.mmio.running ≡ true

-- A predicate that the reference model, the bus of the design and these changes keep.
pub record IsStable {T : Type 0} (P : Sim T → Type 0) : Type 0 where
  pub steps : (config : Config) → Preserves P (on_core (exec config false false false false))
  pub dumps : Preserves P (on_core dump_pc_history)
  pub beats : Preserves P (on_mmio beat)
  pub continues : (s t : Sim T) → Continues s t → P s → P t

module _ {T : Type 0} where
  same : (s t : Sim T) → t.core ≡ s.core → t.mmio.running ≡ s.mmio.running → Continues s t
  same s t c r = record { same_core = c; was_running = λ h. sym r ∙ h }

  drive-Continues : (s : Sim T) → Continues s (drive s)
  unfolding drive
  drive-Continues s = same s _ refl (ground arith)

  compare_retired-Continues : (o : Flags) (s : Sim T) → Continues s (compare_retired o s)
  unfolding compare_retired
  compare_retired-Continues o s = record {
    same_core = ground arith;
    was_running = λ h. ground arith;
  }

  delay_slots-Continues : (o : Flags) (s : Sim T) → Continues s (delay_slots o s)
  unfolding delay_slots
  delay_slots-Continues o s = same s _ (ground arith) (ground arith)

  advance-Continues : (o : Flags) (s : Sim T) → Continues s (advance o s)
  unfolding advance
  advance-Continues o s = record { same_core = ground arith; was_running = λ h. ground arith }

module _ {T : Type 0} (P : Sim T → Type 0) (stable : IsStable P) where
  change-Preserves :
      (f : Sim T → Sim T) → ((s : Sim T) → Continues s (f s)) → Preserves P (change f)
  change-Preserves f c = set-Preserves P tt f (λ s. stable.continues s (f s) (c s))

  plain-Preserves :
      (f : Sim T → Sim T)
      → ((s : Sim T) → (f s).core ≡ s.core)
      → ((s : Sim T) → (f s).mmio.running ≡ s.mmio.running)
      → Preserves P (change f)
  plain-Preserves f c r = change-Preserves f (λ s. same s (f s) (c s) (r s))

  retire-Preserves : (o : Flags) → Preserves P (retire o)
  unfolding retire
  retire-Preserves o =
      >>=-Preserves P _ _
        (if-Preserves P (not o.has_delayslot) _ _ (stable.steps (config_of o)) (
          test-Preserves P (λ s. s.delayslot_cnt == 0) _ _
            (>>=-Preserves P _ _ (stable.steps (config_of o))
              (λ _. plain-Preserves _ (λ s. refl) (λ s. refl)))
            (ret-Preserves P tt)))
        (λ _. plain-Preserves _ (λ s. refl) (λ s. refl))

  dump_if-Preserves : (test : Sim T → Bool) → Preserves P (dump_if test)
  dump_if-Preserves test = test-Preserves P test _ _ stable.dumps (ret-Preserves P tt)

  module _ (vtop : Vtop T) (o : Flags) where
    clock_design-Preserves : Preserves P (clock_design vtop o)
    unfolding clock_design
    clock_design-Preserves =
        >>=-Preserves P _ _
          (change-Preserves _ (λ s.
            let d = drive-Continues s in
            record { same_core = d.same_core; was_running = d.was_running }))
          (λ _.
            test-Preserves P rising _ _
              (>>=-Preserves P _ _ stable.beats
                (λ _. plain-Preserves (λ s. eval vtop o (answer s)) (λ s. refl) (λ s. refl)))
              (ret-Preserves P tt))

    pub test_round-Preserves : Preserves P (test_round vtop o)
    unfolding test_round count_performance count_pc
    test_round-Preserves = >>=-Preserves P _ _ clock_design-Preserves (λ _.
        >>=-Preserves P _ _ (change-Preserves (count_performance o) counted) (λ _.
          >>=-Preserves P _ _
            (test-Preserves P (commits o) _ _
              (>>=-Preserves P _ _ (retire-Preserves o) (λ _.
                >>=-Preserves P _ _ (dump_if-Preserves (error_dumps o))
                  (λ _. set-Preserves P tt _ ended)))
              (ret-Preserves P tt))
            (λ _.
              >>=-Preserves P _ _ (change-Preserves (advance o) (advance-Continues o))
                (λ _. dump_if-Preserves (stuck_dumps o)))))
      where
        counted : (s : Sim T) → Continues s (count_performance o s)
        counted s = same s _ refl refl

        ended : (s : Sim T) → P s → P (delay_slots o (compare_retired o (count_pc o s)))
        ended s p = stable.continues _ _ (delay_slots-Continues o _) (
            stable.continues _ _ (compare_retired-Continues o _)
              (stable.continues s _ (same s _ refl refl) p))

    pub trace_round-Preserves : Preserves P (trace_round vtop o)
    unfolding trace_round log
    trace_round-Preserves = >>=-Preserves P _ _ clock_design-Preserves (λ _.
        >>=-Preserves P _ _
          (test-Preserves P (commits o) _ _
            (>>=-Preserves P _ _ (retire-Preserves o) (λ _.
              >>=-Preserves P _ _ (dump_if-Preserves (error_dumps o))
                (λ _. set-Preserves P tt _ ended)))
            (ret-Preserves P tt))
          (λ _.
            >>=-Preserves P _ _ (change-Preserves (advance o) (advance-Continues o))
              (λ _. dump_if-Preserves (stuck_dumps o))))
      where
        ended : (s : Sim T) → P s → P (log (delay_slots o (compare_retired o s)))
        ended s p = stable.continues _ _ (same _ _ refl refl) (
            stable.continues _ _ (delay_slots-Continues o _)
              (stable.continues _ _ (compare_retired-Continues o s) p))

  pub loop-Preserves :
      (vtop : Vtop T) (round : Sim T → Ran (Sim T) (Unit {0}))
      → Preserves P round
      → (fuel : ℕ) → Preserves P (loop vtop round fuel)
  unfolding loop
  loop-Preserves vtop round keep zero s a t p = ret-Preserves P (not (goes_on vtop s)) s a t p
  loop-Preserves vtop round keep (suc fuel) s a t p =
      go (goes_on vtop s) (λ u b v q. loop-Preserves vtop round keep fuel u b v q)
    where
      go :
          (x : Bool)
          → Preserves P (loop vtop round fuel)
          → (elim x [ true ↦ (round >>= λ _. loop vtop round fuel) s | false ↦ ret true s ])
            ≡ ret a t
          → P t
      go true rest = >>=-Preserves P round _ keep (λ _. rest) s a t p
      go false rest = ret-Preserves P true s a t p
