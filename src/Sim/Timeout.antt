-- ===== src/Sim/Timeout.antt =====
-- The loops of difftest/src/sim_mycpu.cpp over a design that retires nothing: they end.
use hdu_cpu_lab.Common.{
  ℕ, zero, suc, ◌+◌, ◌≤◌, ◌<◌, ◌≡◌, refl, ap, ◌⊎◌, inl, inr, Bool, Bool-cases, true, false, not,
  subst, sym, arith,
}
use hdu_cpu_lab.Common.Run.{Ran, ret, abort, >>=-ret, >>=-abort, ◌>>=◌}
use hdu_cpu_lab.Common.Words.{u64}
use hdu_cpu_lab.Sim.Design.{Vtop}
use hdu_cpu_lab.Sim.State.{Flags, Sim, commit_timeout}
use hdu_cpu_lab.Sim.Tick.{test_round, trace_round, goes_on, loop}
use hdu_cpu_lab.Sim.Stuck.{
  IsHung, age, Wide, Waits, undefined, waits, test_round-Waits, trace_round-Waits,
}

module _ {T : Type 0} (vtop : Vtop T) (Hung : T → Type 0) where
  -- The loop came to its end, or the behaviour is undefined.
  abbrev pub Ends : Ran (Sim T) Bool → Type 0
  Ends r = (r ≡ abort) ⊎ ((t : Sim T) × (r ≡ ret true t))

  -- The rounds that are left while the loop goes on.
  abbrev pub Young : ℕ → Sim T → Type 0
  Young fuel s = s.mmio.running ≡ true → (age s < commit_timeout) × (commit_timeout ≤ age s + fuel)

  module _ (round : Sim T → Ran (Sim T) (Unit {0}))
      (waiting : (s : Sim T) → Hung s.rest → Waits Hung s (round s)) where
    halts : (s : Sim T) → Young 0 s → goes_on vtop s ≡ false
    halts s young = elim (Bool-cases s.mmio.running) [
      | inl r ↦ let y = young r in absurd (omega arith)
      | inr r ↦ ground arith
    ]

    older :
        (fuel : ℕ) (s t : Sim T)
        → Wide s
        → Young (suc fuel) s
        → goes_on vtop s ≡ true
        → t.ticks ≡ u64 (s.ticks + 1)
        → t.last_commit ≡ s.last_commit
        → (t.mmio.running ≡ true → age t < commit_timeout)
        → Young fuel t × Wide t
    older fuel s t w young g p q r =
        let y = young (ground arith) in
        let y0 = y.0 in
        let y1 = y.1 in
        let a = w.0 in
        let b = w.1 in ((λ k. let c = r k in (c, omega arith)), (omega arith, omega arith))

    -- The loop ends within `fuel` rounds, by its test or in undefined behaviour.
    pub loop-Ends :
        (fuel : ℕ) (s : Sim T) → Hung s.rest → Wide s → Young fuel s → Ends (loop vtop round fuel s)
    unfolding loop
    loop-Ends zero s h w young = inr (s, ap (λ x. ret (not x) s) (halts s young))
    loop-Ends (suc fuel) s h w young =
        choose (goes_on vtop s) refl (waiting s h) (λ t. loop-Ends fuel t)
      where
        choose :
            (x : Bool)
            → goes_on vtop s ≡ x
            → Waits Hung s (round s)
            → ((t : Sim T) → Hung t.rest → Wide t → Young fuel t → Ends (loop vtop round fuel t))
            → Ends (elim x [ true ↦ (round >>= λ _. loop vtop round fuel) s | false ↦ ret true s ])
        choose false g k rest = inr (s, refl)
        choose true g k rest = waited (round s) refl k
          where
            waited :
                (r : Ran (Sim T) (Unit {0}))
                → round s ≡ r
                → Waits Hung s r
                → Ends ((round >>= λ _. loop vtop round fuel) s)
            waited r e undefined = inl (>>=-abort round (λ _. loop vtop round fuel) s e)
            waited r e (waits t k p q y) =
                let o = older fuel s t w young g p q y in
                subst Ends (sym (>>=-ret round (λ _. loop vtop round fuel) s e)) (rest t k o.1 o.0)

  -- From any state of either loop whose 64-bit counters show that the last retirement was less than
  -- 3000 rounds ago, with a design that retires nothing from there on, 3000 rounds of fuel are enough:
  -- the loop ends by its own test, unless a round before that is undefined behaviour. It does not end
  -- the process.
  pub hung-Ends :
      (o : Flags) (fuel : ℕ) (s : Sim T)
      → IsHung vtop Hung
      → Hung s.rest
      → Wide s
      → age s < commit_timeout
      → commit_timeout ≤ fuel
      → Ends (loop vtop (test_round vtop o) fuel s) × Ends (loop vtop (trace_round vtop o) fuel s)
  hung-Ends o fuel s hung h w young enough = (
    loop-Ends (test_round vtop o) (test_round-Waits vtop Hung hung o) fuel s h w
        (λ _. (young, omega arith)),
    loop-Ends (trace_round vtop o) (trace_round-Waits vtop Hung hung o) fuel s h w
        (λ _. (young, omega arith)),
  )
