-- ===== src/Sim/Stuck.antt =====
-- The loops of difftest/src/sim_mycpu.cpp over a design that retires nothing.
use hdu_cpu_lab.Common.{
  ℕ, ◌+◌, ◌^◌, ◌<◌, ◌≡◌, refl, ap, inl, inr, Bool, true, false, ◌∙◌, if◌then◌else◌, subst, sym,
  arith,
}
use hdu_cpu_lab.Common.Run.{Ran, ret, abort, within-cases, >>=-ret, >>=-abort, ◌>>=◌, ◌>>◌, within}
use hdu_cpu_lab.Common.Words.{u64, sub64}
use hdu_cpu_lab.Device.Mem.Laws.{mem_dev}
use hdu_cpu_lab.Sram.Slave.{beat}
use hdu_cpu_lab.Sram.Running.{beat-NeverExits, xbar-StaysAlive}
use hdu_cpu_lab.Sram.Xbar.{xbar_slave}
use hdu_cpu_lab.Core.State.{dump_pc_history}
use hdu_cpu_lab.Core.History.{dump_pc_history-NeverExits}
use hdu_cpu_lab.Sim.Design.{Ports, Vtop}
use hdu_cpu_lab.Sim.State.{Flags, Sim, commit_timeout}
use hdu_cpu_lab.Sim.Tick.{
  on_mmio, change, drive, rising, answer, commits, count_performance, retire, count_pc,
  compare_retired, delay_slots, log, advance, eval, clock_design, test_round, trace_round, on_core,
  dump_if, error_dumps, stuck_dumps,
}

-- The design retires nothing any more: `Hung` holds of the rest of its object, and `eval` keeps it.
pub record IsHung {T : Type 0} (vtop : Vtop T) (Hung : T → Type 0) : Type 0 where
  pub silent : (p : Ports) (t : T) → Hung t → (vtop.eval p t).0.debug_commit ≡ false
  pub stays : (p : Ports) (t : T) → Hung t → Hung (vtop.eval p t).1

-- The rounds since the last retirement.
abbrev pub age : {T : Type 0} → Sim T → ℕ
age s = sub64 s.ticks s.last_commit

-- The counters are 64-bit numbers.
abbrev pub Wide : {T : Type 0} → Sim T → Type 0
Wide s = (s.ticks < 2 ^ 64) × (s.last_commit < 2 ^ 64)

-- A round comes back older and with its tests done, or it is undefined behaviour.
pub data Waits {T : Type 0} (Hung : T → Type 0) (s : Sim T) : Ran (Sim T) (Unit {0}) → Type 0 where
  undefined : Waits Hung s abort
  waits :
      (t : Sim T)
      → Hung t.rest
      → t.ticks ≡ u64 (s.ticks + 1)
      → t.last_commit ≡ s.last_commit
      → (t.mmio.running ≡ true → age t < commit_timeout)
      → Waits Hung s (ret tt t)

-- The first part of the round, which shows the design's signals.
pub data Clocks {T : Type 0} (Hung : T → Type 0) (s : Sim T) : Ran (Sim T) (Unit {0}) → Type 0 where
  fails : Clocks Hung s abort
  clocked :
      (t : Sim T)
      → Hung t.rest
      → t.top.debug_commit ≡ false
      → t.ticks ≡ s.ticks
      → t.last_commit ≡ s.last_commit
      → Clocks Hung s (ret tt t)

module _ {T : Type 0} (vtop : Vtop T) (Hung : T → Type 0) (hung : IsHung vtop Hung)
    (o : Flags) where
  clock_design-Clocks : (s : Sim T) → Hung s.rest → Clocks Hung s (clock_design vtop o s)
  unfolding clock_design drive within
  clock_design-Clocks s h = choose (rising first)
    where
      first : Sim T
      first = eval vtop o (drive s)

      first_hung : Hung first.rest
      first_hung = hung.stays (drive s).top s.rest h

      choose :
          (x : Bool)
          → Clocks Hung s (
              if x
              then (do on_mmio beat; change (λ u. eval vtop o (answer u))) first
              else ret tt first)
      choose true =
          elim (within-cases (λ u. u.mmio) (λ m u. record u { mmio = m }) beat first
            (beat-NeverExits xbar-StaysAlive)) [
              | inl e ↦ subst (Clocks Hung s) (sym (>>=-abort (on_mmio beat) _ first e)) fails
              | inr (a, m, e) ↦
                  subst (Clocks Hung s)
                    (sym
                      (>>=-ret (on_mmio beat) (λ _. change (λ u. eval vtop o (answer u))) first e))
                    (clocked _ (hung.stays _ first.rest first_hung)
                      (hung.silent _ first.rest first_hung) refl refl)
            ]
      choose false = clocked first first_hung (hung.silent (drive s).top s.rest h) refl refl

  advance-Waits :
      (s t : Sim T)
      → Hung t.rest
      → t.ticks ≡ s.ticks
      → t.last_commit ≡ s.last_commit
      → Waits Hung s (ret tt (advance o t))
  unfolding advance
  advance-Waits s t h p q =
      waits (advance o t) (subst Hung (ground arith) h) (ground arith) (ground arith)
        (λ r. ground arith)

  -- What follows the clock in a round that retires nothing.
  abbrev ends_quietly : Sim T → Ran (Sim T) (Unit {0})
  ends_quietly t = dump_if (stuck_dumps o) (advance o t)

  ends_quietly-Waits :
      (s t : Sim T)
      → Hung t.rest
      → t.ticks ≡ s.ticks
      → t.last_commit ≡ s.last_commit
      → Waits Hung s (ends_quietly t)
  ends_quietly-Waits s t h p q = choose (stuck_dumps o u)
    where
      u : Sim T
      u = advance o t

      dumped : Waits Hung s (ret tt u) → Waits Hung s (on_core dump_pc_history u)
      dumped (waits _ k a b c) =
          elim (within-cases (λ v. v.core) (λ d v. record v { core = d }) dump_pc_history u
            dump_pc_history-NeverExits) [
              | inl e ↦ subst (Waits Hung s) (sym e) undefined
              | inr (tt, d, e) ↦
                  subst (Waits Hung s) (sym e) (waits (record u { core = d }) k a b c)
            ]

      choose : (x : Bool) → Waits Hung s (if x then on_core dump_pc_history u else ret tt u)
      choose true = dumped (advance-Waits s t h p q)
      choose false = advance-Waits s t h p q

  -- With nothing retired the middle of the round is skipped.
  quiet : (s : Sim T) → s.top.debug_commit ≡ false → commits o s ≡ false
  quiet s e = ground arith

  abbrev when_commits : (Sim T → Ran (Sim T) (Unit {0})) → Sim T → Ran (Sim T) (Unit {0})
  when_commits m s = if commits o s then m s else ret tt s

  abbrev test_body : Sim T → Ran (Sim T) (Unit {0})
  test_body = do
    retire o
    dump_if (error_dumps o)
    change (λ s. delay_slots o (compare_retired o (count_pc o s)))

  abbrev test_tail : Sim T → Ran (Sim T) (Unit {0})
  test_tail = do
    change (count_performance o)
    when_commits test_body
    change (advance o)
    dump_if (stuck_dumps o)

  abbrev trace_body : Sim T → Ran (Sim T) (Unit {0})
  trace_body = do
    retire o
    dump_if (error_dumps o)
    change (λ s. log (delay_slots o (compare_retired o s)))

  abbrev trace_tail : Sim T → Ran (Sim T) (Unit {0})
  trace_tail = do when_commits trace_body; change (advance o); dump_if (stuck_dumps o)

  -- Behind the clock both rounds are a tail that, with nothing retired, only advances.
  tail-Waits :
      (s : Sim T) (tail : Sim T → Ran (Sim T) (Unit {0})) (f : Sim T → Sim T)
      → ((t : Sim T) → t.top.debug_commit ≡ false → tail t ≡ ends_quietly (f t))
      → ((t : Sim T) → (f t).rest ≡ t.rest)
      → ((t : Sim T) → ((f t).ticks ≡ t.ticks) × ((f t).last_commit ≡ t.last_commit))
      → Hung s.rest
      → Waits Hung s ((clock_design vtop o >>= λ _. tail) s)
  tail-Waits s tail f skip same keeps h = go (clock_design vtop o s) refl (clock_design-Clocks s h)
    where
      go :
          (r : Ran (Sim T) (Unit {0}))
          → clock_design vtop o s ≡ r
          → Clocks Hung s r
          → Waits Hung s ((clock_design vtop o >>= λ _. tail) s)
      go r e fails =
          subst (Waits Hung s) (sym (>>=-abort (clock_design vtop o) (λ _. tail) s e)) undefined
      go r e (clocked t k c p q) =
          subst (Waits Hung s) (sym (>>=-ret (clock_design vtop o) (λ _. tail) s e ∙ skip t c)) (
            ends_quietly-Waits s (f t) (subst Hung (sym (same t)) k) ((keeps t).0 ∙ p)
              ((keeps t).1 ∙ q))

  -- A step that is skipped.
  skips :
      (m : Sim T → Ran (Sim T) (Unit {0})) (s : Sim T)
      → s.top.debug_commit ≡ false
      → (if commits o s then m s else ret tt s) ≡ ret tt s
  skips m s e = ap (λ x. if x then m s else ret tt s) (quiet s e)

  pub test_round-Waits : (s : Sim T) → Hung s.rest → Waits Hung s (test_round vtop o s)
  unfolding test_round count_performance
  test_round-Waits s =
      tail-Waits s test_tail (count_performance o)
        (λ t c.
          >>=-ret (when_commits test_body) (λ _. do change (advance o); dump_if (stuck_dumps o))
            (count_performance o t) (skips test_body (count_performance o t) c))
        (λ t. refl) (λ t. (refl, refl))

  pub trace_round-Waits : (s : Sim T) → Hung s.rest → Waits Hung s (trace_round vtop o s)
  unfolding trace_round
  trace_round-Waits s =
      tail-Waits s trace_tail (λ t. t)
        (λ t c.
          >>=-ret (when_commits trace_body) (λ _. do change (advance o); dump_if (stuck_dumps o)) t
            (skips trace_body t c))
        (λ t. refl) (λ t. (refl, refl))
