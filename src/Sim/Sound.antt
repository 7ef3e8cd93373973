-- ===== src/Sim/Sound.antt =====
-- The loops of difftest/src/sim_mycpu.cpp: the reference model and the global `running`.
use hdu_cpu_lab.Common.{
  ℕ, ◌≡◌, refl, sym, ◌∙◌, subst, ap, ◌⊎◌, inl, inr, none, some, List, Bool, true, false,
}
use hdu_cpu_lab.Common.Run.{ret, within-Preserves}
use hdu_cpu_lab.Device.Mem.Laws.{mem_dev}
use hdu_cpu_lab.Sram.Running.{Halted, beat-Halted}
use hdu_cpu_lab.Sram.Xbar.{xbar_slave}
use hdu_cpu_lab.Core.Kept.{dump_pc_history-IsKept, IsKept}
use hdu_cpu_lab.Core.Step.{exec-IsKept}
use mathlib.Core.Option.{some_inj}
use hdu_cpu_lab.Sim.Design.{Ports, Vtop}
use hdu_cpu_lab.Sim.{Uninitialised, cemu_rvcore, at_start, riscv_test_run, make_cpu_trace}
use hdu_cpu_lab.Sim.Setup.{cemu_bus, rtl_bus, setup_lem, cemu_rvcore-IsKept}
use hdu_cpu_lab.Sim.State.{Flags, Sim}
use hdu_cpu_lab.Sim.Tick.{test_round, trace_round, loop}
use hdu_cpu_lab.Sim.Kept.{IsStable, test_round-Preserves, trace_round-Preserves, loop-Preserves}

-- The reference model of the loop's state is well formed.
abbrev pub OnCore : {T : Type 0} → Sim T → Type 0
OnCore s = IsKept s.core

abbrev pub Stopped : {T : Type 0} → Sim T → Type 0
Stopped s = s.mmio.running ≡ false

module _ {T : Type 0} where
  pub OnCore-IsStable : IsStable {T = T} OnCore
  OnCore-IsStable = record {
    steps = λ config.
        within-Preserves IsKept OnCore (λ s. s.core) _ _ (λ s k. k) (λ c s q k. k)
          (exec-IsKept config false false false false);
    dumps =
        within-Preserves IsKept OnCore (λ s. s.core) _ _ (λ s k. k) (λ c s q k. k)
          dump_pc_history-IsKept;
    beats =
        within-Preserves (λ _. Unit {0}) OnCore (λ s. s.mmio) _ _ (λ s k. tt) (λ m s k _. k)
          (λ s a t p e. tt);
    continues = λ s t c k. subst IsKept (sym c.same_core) k;
  }

  pub Stopped-IsStable : IsStable {T = T} Stopped
  Stopped-IsStable = record {
    steps = λ config.
        within-Preserves (λ _. Unit {0}) Stopped (λ s. s.core) _ _ (λ s k. tt) (λ c s q _. q)
          (λ s a t p e. tt);
    dumps =
        within-Preserves (λ _. Unit {0}) Stopped (λ s. s.core) _ _ (λ s k. tt) (λ c s q _. q)
          (λ s a t p e. tt);
    beats = within-Preserves Halted Stopped (λ s. s.mmio) _ _ (λ s k. k) (λ m s k q. q) beat-Halted;
    continues = λ s t c k. still s.mmio.running t.mmio.running k c.was_running;
  }
    where
      still : (x y : Bool) → x ≡ false → (y ≡ true → x ≡ true) → y ≡ false
      still x true k was = sym (was refl) ∙ k
      still x false k was = refl

module _ {T : Type 0} (vtop : Vtop T) (o : Flags) (u : Uninitialised) (file : List ℕ) (fuel : ℕ)
    (running : Bool) (top : Ports) (rest : T) where
  start : ℕ → Sim T
  start delay =
      at_start o delay running top rest (cemu_rvcore o u (cemu_bus u file)) (rtl_bus u file)

  test_run :
      riscv_test_run vtop o u file fuel running top rest
      ≡ some (loop vtop (test_round vtop o) fuel (start 1500))
  unfolding riscv_test_run start
  test_run =
      ap (λ x. elim x [ none ↦ none | some s ↦ some (loop vtop (test_round vtop o) fuel s) ])
        (setup_lem u file o 1500 running top rest)

  trace_run :
      make_cpu_trace vtop o u file fuel running top rest
      ≡ some (loop vtop (trace_round vtop o) fuel (start 10))
  unfolding make_cpu_trace start
  trace_run =
      ap (λ x. elim x [ none ↦ none | some s ↦ some (loop vtop (trace_round vtop o) fuel s) ])
        (setup_lem u file o 10 running top rest)

  -- Whatever the design does, when riscv_test_run or make_cpu_trace comes back the reference model is
  -- well formed: register 0 is 0, and its control registers satisfy the invariant of the privileged
  -- architecture. If the test of the wires failed, `running` is still false.
  pub runs-IsKept :
      (b : Bool) (t : Sim T)
      → (riscv_test_run vtop o u file fuel running top rest ≡ some (ret b t))
        ⊎ (make_cpu_trace vtop o u file fuel running top rest ≡ some (ret b t))
      → IsKept t.core × (running ≡ false → t.mmio.running ≡ false)
  unfolding start
  runs-IsKept b t (inl h) =
      let e = some_inj.0 (sym test_run ∙ h) in
      (
        loop-Preserves OnCore OnCore-IsStable vtop _
            (test_round-Preserves OnCore OnCore-IsStable vtop o) fuel (start 1500) b t
            (cemu_rvcore-IsKept u file o (cemu_bus u file)) e,
        λ off.
            loop-Preserves Stopped Stopped-IsStable vtop _
              (test_round-Preserves Stopped Stopped-IsStable vtop o) fuel (start 1500) b t off e,
      )
  runs-IsKept b t (inr h) =
      let e = some_inj.0 (sym trace_run ∙ h) in
      (
        loop-Preserves OnCore OnCore-IsStable vtop _
            (trace_round-Preserves OnCore OnCore-IsStable vtop o) fuel (start 10) b t
            (cemu_rvcore-IsKept u file o (cemu_bus u file)) e,
        λ off.
            loop-Preserves Stopped Stopped-IsStable vtop _
              (trace_round-Preserves Stopped Stopped-IsStable vtop o) fuel (start 10) b t off e,
      )
