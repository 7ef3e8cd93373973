-- ===== src/Sim/Refine.antt =====
-- The loops of difftest/src/sim_mycpu.cpp: the reference model follows the design to the end.
use hdu_cpu_lab.Common.{
  ℕ, zero, suc, ◌≡◌, refl, sym, ◌∙◌, subst, ◌⊎◌, inl, inr, Bool, Bool-cases, true, false, List, [],
  ◌∷◌,
}
use mathlib.Core.Bool.{false≢true}
use hdu_cpu_lab.Common.Run.{Ran, ret, ◌>>=◌, >>=-inv, ret-inj}
use hdu_cpu_lab.Device.Mem.Laws.{mem_dev}
use hdu_cpu_lab.Sim.Design.{Ports, Vtop}
use hdu_cpu_lab.Sim.State.{Flags, Sim, config_of}
use hdu_cpu_lab.Sim.Tick.{commits, test_round, trace_round, goes_on, loop}
use hdu_cpu_lab.Sim.Follow.{
  Rounds, begins, idles, shows, Follows, stands, executes, Turns, test_round-Turns,
  trace_round-Turns,
}
use hdu_cpu_lab.Sim.Lockstep.{clock_design-Untouched}

-- There are retirements that the rounds from `s` to `t` showed, and the reference model follows them.
abbrev pub Followed :
    {T : Type 0} → Vtop T → Flags → (Sim T → Ran (Sim T) (Unit {0})) → Sim T → Sim T → Type 0
Followed vtop o round s t =
    (ps : List Ports) × Rounds vtop o round s ps t × Follows (config_of o) s.core ps t.core

module _ {T : Type 0} (vtop : Vtop T) (o : Flags) (plain : o.has_delayslot ≡ false) where
  module _ (round : Sim T → Ran (Sim T) (Unit {0})) (turns : Turns vtop o plain round) where
    -- `running` was true all along.
    was_running : (t u : Sim T) → round t ≡ ret tt u → u.mmio.running ≡ true → t.mmio.running ≡ true
    was_running t u h r = elim (Bool-cases t.mmio.running) [
      | inl on ↦ on
      | inr off ↦ absurd (false≢true (sym (turns.stops t tt u off h) ∙ r))
    ]

    follow :
        (s t : Sim T) (ps : List Ports)
        → s.delayslot_cnt ≡ 0
        → Rounds vtop o round s ps t
        → t.mmio.running ≡ true
        → Follows (config_of o) s.core ps t.core × (t.delayslot_cnt ≡ 0)
    follow s w qs z begins r = (stands, z)
    follow s w qs z (idles ps t m u k e c h) r =
        let (f, zt) = follow s t ps z k (was_running t u h r) in
        let clock = clock_design-Untouched vtop o t t tt m (refl, refl) e in
        let i = turns.idle t m u e c h r in
        (subst (Follows (config_of o) s.core ps) (sym (i.0 ∙ clock.0)) f, i.1 ∙ clock.1 ∙ zt)
    follow s w qs z (shows ps t m u k e c h) r =
        let (f, zt) = follow s t ps z k (was_running t u h r) in
        let clock = clock_design-Untouched vtop o t t tt m (refl, refl) e in
        let i = turns.show t m u e c (clock.1 ∙ zt) h r in
        (
          executes m.top ps m.core u.core (subst (Follows (config_of o) s.core ps) (sym clock.0) f)
              i.0 i.1,
          i.2,
        )

    -- The rounds of a loop that comes back.
    loop-Rounds :
        (fuel : ℕ) (s u t : Sim T) (ps : List Ports) {b : Bool}
        → Rounds vtop o round s ps u
        → loop vtop round fuel u ≡ ret b t
        → (qs : List Ports) × Rounds vtop o round s qs t
    unfolding loop
    loop-Rounds zero s u t ps k h = (ps, subst (Rounds vtop o round s ps) (sym (ret-inj h)) k)
    loop-Rounds (suc fuel) s u t ps {b} k h =
        choose (goes_on vtop u) (λ v qs l e. loop-Rounds fuel s v t qs l e) h
      where
        choose :
            (x : Bool)
            → ((v : Sim T) (qs : List Ports)
                → Rounds vtop o round s qs v
                → loop vtop round fuel v ≡ ret b t
                → (qs : List Ports) × Rounds vtop o round s qs t)
            → (elim x [ true ↦ (round >>= λ _. loop vtop round fuel) u | false ↦ ret true u ])
              ≡ ret b t
            → (qs : List Ports) × Rounds vtop o round s qs t
        choose false rest e = (ps, subst (Rounds vtop o round s ps) (sym (ret-inj e)) k)
        choose true rest e =
            let (a, v, turn, f) = >>=-inv round (λ _. loop vtop round fuel) u e in
            let (m, clock) = turns.clocks u v turn in
            elim (Bool-cases (commits o m)) [
              | inl c ↦ rest v (m.top ∷ ps) (shows ps u m v k clock c turn) f
              | inr c ↦ rest v ps (idles ps u m v k clock c turn) f
            ]

    pub loop-Followed :
        (fuel : ℕ) (s t : Sim T) {b : Bool}
        → s.delayslot_cnt ≡ 0
        → loop vtop round fuel s ≡ ret b t
        → t.mmio.running ≡ true
        → Followed vtop o round s t
    loop-Followed fuel s t z h r =
        let (ps, k) = loop-Rounds fuel s s t [] begins h in (ps, k, (follow s t ps z k r).0)

module _ {T : Type 0} (vtop : Vtop T) (o : Flags) where
  -- Without the options -delay and -hasdelayslot, when either loop comes back from a state with no
  -- delay slot pending and `running` is still true, then the reference model has followed the design
  -- all the way. For each instruction that the design showed as retired, in their order, the reference
  -- model has executed one step from where the last one left it. The step has the program counter
  -- that the design showed, and when it writes a register other than 0, the register number and the
  -- value that the design showed too; a write that the design shows where the step writes none is not
  -- compared. In the other rounds the reference model has not changed.
  pub loop-follows :
      (round : Sim T → Ran (Sim T) (Unit {0})) (fuel : ℕ) (s t : Sim T) (b : Bool)
      → o.has_delayslot ≡ false
      → o.should_delay ≡ false
      → (round ≡ test_round vtop o) ⊎ (round ≡ trace_round vtop o)
      → s.delayslot_cnt ≡ 0
      → loop vtop round fuel s ≡ ret b t
      → t.mmio.running ≡ true
      → Followed vtop o round s t
  loop-follows round fuel s t b plain prompt (inl e) z h r =
      loop-Followed vtop o plain round
        (subst (Turns vtop o plain) (sym e) (test_round-Turns vtop o plain prompt)) fuel s t z h r
  loop-follows round fuel s t b plain prompt (inr e) z h r =
      loop-Followed vtop o plain round
        (subst (Turns vtop o plain) (sym e) (trace_round-Turns vtop o plain prompt)) fuel s t z h r
