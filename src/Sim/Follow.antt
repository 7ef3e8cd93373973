-- ===== src/Sim/Follow.antt =====
-- The loops of difftest/src/sim_mycpu.cpp, without the options -delay and -hasdelayslot: the reference
-- model follows the design.
use hdu_cpu_lab.Common.{
  ◌≡◌, ap, sym, ◌∙◌, subst, true, false, not, inl, inr, ◌&&◌, ◌||◌, ◌==◌, List, [], ◌∷◌,
  if◌then◌else◌,
}
use mathlib.Core.Bool.{false≢true}
use hdu_cpu_lab.Common.Run.{Ran, ret, ◌>>◌, Preserves, >>=-inv, >>=-ret, ret-inj}
use hdu_cpu_lab.Device.Mem.{Mem}
use hdu_cpu_lab.Device.Mem.Laws.{mem_dev}
use hdu_cpu_lab.Core.State.{Core}
use hdu_cpu_lab.Priv.Registers.{Config}
use hdu_cpu_lab.Sim.Design.{Ports, Vtop}
use hdu_cpu_lab.Sim.State.{Flags, Sim, config_of}
use hdu_cpu_lab.Sim.Tick.{
  change, commits, count_performance, retire, count_pc, compare_retired, delay_slots, log, advance,
  clock_design, test_round, trace_round, differs, dump_if, error_dumps, stuck_dumps,
}
use hdu_cpu_lab.Sim.Kept.{test_round-Preserves, trace_round-Preserves}
use hdu_cpu_lab.Sim.Sound.{Stopped, Stopped-IsStable}
use hdu_cpu_lab.Sim.Lockstep.{
  agree, dumped-differs, dump_if-inv, stuck-stops, Agrees, Steps, Untouched, stepped, retire-inv,
  advance-running, advance-Untouched, compared, kept,
}

-- Rounds of a loop, with what the design showed of the instructions that it retired, the last first.
pub data Rounds {T : Type 0} (vtop : Vtop T) (o : Flags) (round : Sim T → Ran (Sim T) (Unit {0}))
    (s : Sim T) : List Ports → Sim T → Type 0 where
  begins : Rounds vtop o round s [] s
  idles :
      (ps : List Ports) (t m u : Sim T)
      → Rounds vtop o round s ps t
      → clock_design vtop o t ≡ ret tt m
      → commits o m ≡ false
      → round t ≡ ret tt u
      → Rounds vtop o round s ps u
  shows :
      (ps : List Ports) (t m u : Sim T)
      → Rounds vtop o round s ps t
      → clock_design vtop o t ≡ ret tt m
      → commits o m ≡ true
      → round t ≡ ret tt u
      → Rounds vtop o round s (m.top ∷ ps) u

-- The reference model executes an instruction for each of them and agrees with it.
pub data Follows (config : Config) (c : Core Mem) : List Ports → Core Mem → Type 0 where
  stands : Follows config c [] c
  executes :
      (p : Ports) (ps : List Ports) (d e : Core Mem)
      → Follows config c ps d
      → Steps config d e
      → Agrees p e
      → Follows config c (p ∷ ps) e

module _ {T : Type 0} (vtop : Vtop T) (o : Flags) where
  abbrev when_commits : (Sim T → Ran (Sim T) (Unit {0})) → Sim T → Ran (Sim T) (Unit {0})
  when_commits m s = if commits o s then m s else ret tt s

  abbrev body_with : (Sim T → Sim T) → Sim T → Ran (Sim T) (Unit {0})
  body_with post = do retire o; dump_if (error_dumps o); change post

  -- The end of a round.
  abbrev ends : Sim T → Ran (Sim T) (Unit {0})
  ends = do change (advance o); dump_if (stuck_dumps o)

  abbrev tail_with : (Sim T → Sim T) → Sim T → Ran (Sim T) (Unit {0})
  tail_with post = do when_commits (body_with post); ends

  -- A round that leaves `running` true has printed nothing at its end.
  ends-quiet : (x u : Sim T) → ends x ≡ ret tt u → u.mmio.running ≡ true → u ≡ advance o x
  ends-quiet x u h r = elim (dump_if-inv (stuck_dumps o) (advance o x) u h) [
    | inl (_, e) ↦ e
    | inr (stuck, e) ↦
        absurd (false≢true (sym (stuck-stops o x stuck) ∙ sym (ap (λ y. y.mmio.running) e) ∙ r))
  ]

  tail-idle :
      (post : Sim T → Sim T) (x u : Sim T)
      → commits o x ≡ false
      → tail_with post x ≡ ret tt u
      → u.mmio.running ≡ true
      → u ≡ advance o x
  tail-idle post x u e h r =
      ends-quiet x u (sym (>>=-ret (when_commits (body_with post)) (λ _. ends) x skip) ∙ h) r
    where
      skip : (if commits o x then body_with post x else ret tt x) ≡ ret tt x
      skip = ap (λ b. if b then body_with post x else ret tt x) e

  module _ (plain : o.has_delayslot ≡ false) where
    -- A retirement that leaves `running` true has found no difference, so it has printed nothing.
    tail-shows :
        (post : Sim T → Sim T) (x u : Sim T)
        → ((v : Sim T) → (post v).mmio.running ≡ true → differs v ≡ false)
        → commits o x ≡ true
        → tail_with post x ≡ ret tt u
        → u.mmio.running ≡ true
        → (c : Core Mem) × Steps (config_of o) x.core c
          × (u ≡ advance o (post (stepped o plain x c)))
    tail-shows post x u good e h run =
        let (a, t, q, r) = >>=-inv (when_commits (body_with post)) (λ _. ends) x h in
        let body : body_with post x ≡ ret a t =
          subst (λ b. (if b then body_with post x else ret tt x) ≡ ret a t) e q in
        let (b, v, k, l) =
          >>=-inv (retire o) (λ _. do dump_if (error_dumps o); change post) x body in
        let (d, w, m, n) = >>=-inv (dump_if (error_dumps o)) (λ _. change post) v l in
        let (c, steps, s) = retire-inv o plain x k in
        let last : u ≡ advance o t = ends-quiet t u r run in
        let end : u ≡ advance o (post w) = last ∙ ap (advance o) (ret-inj n) in
        let on : (post w).mmio.running ≡ true =
          advance-running o plain (post w) (sym (ap (λ y. y.mmio.running) end) ∙ run) in
        elim (dump_if-inv (error_dumps o) v w m) [
          | inl (_, same) ↦ (c, steps, end ∙ ap (λ y. advance o (post y)) (same ∙ s))
          | inr (found, lost) ↦
              let clean : differs v ≡ false =
                sym (dumped-differs v) ∙ sym (ap differs lost) ∙ good w on in
              absurd (
                false≢true (
                  sym (
                    ap (λ y. y && (o.dump_pc_history && (not o.should_delay || v.delay == 10)))
                      clean)
                  ∙ found))
        ]

    -- What a round that comes back has done behind the clock, `m` being the state it left.
    pub record Turns (round : Sim T → Ran (Sim T) (Unit {0})) : Type 0 where
      pub idle :
          (s m u : Sim T)
          → clock_design vtop o s ≡ ret tt m
          → commits o m ≡ false
          → round s ≡ ret tt u
          → u.mmio.running ≡ true
          → Untouched m u
      pub show :
          (s m u : Sim T)
          → clock_design vtop o s ≡ ret tt m
          → commits o m ≡ true
          → m.delayslot_cnt ≡ 0
          → round s ≡ ret tt u
          → u.mmio.running ≡ true
          → Steps (config_of o) m.core u.core × Agrees m.top u.core × (u.delayslot_cnt ≡ 0)
      pub stops : Preserves Stopped round
      pub clocks :
          (s u : Sim T) → round s ≡ ret tt u → (m : Sim T) × (clock_design vtop o s ≡ ret tt m)

    shown :
        (post : Sim T → Sim T) (x u : Sim T)
        → ((v : Sim T) → (post v).mmio.running ≡ true → differs v ≡ false)
        → ((v : Sim T) → Untouched v (post v))
        → commits o x ≡ true
        → x.delayslot_cnt ≡ 0
        → tail_with post x ≡ ret tt u
        → u.mmio.running ≡ true
        → Steps (config_of o) x.core u.core × Agrees x.top u.core × (u.delayslot_cnt ≡ 0)
    shown post x u good same e z h r =
        let (c, steps, w) = tail-shows post x u good e h r in
        let v = stepped o plain x c in
        let k = advance-Untouched o plain (post v) in
        let core : u.core ≡ c = ap (λ y. y.core) w ∙ k.0 ∙ (same v).0 in
        let on : (advance o (post v)).mmio.running ≡ true = sym (ap (λ y. y.mmio.running) w) ∙ r in
        let agrees = agree o plain v z (good v (advance-running o plain (post v) on)) in
        (
          subst (Steps (config_of o) x.core) (sym core) steps,
          subst (Agrees x.top) (sym core) agrees,
          ap (λ y. y.delayslot_cnt) w ∙ k.1 ∙ (same v).1 ∙ z,
        )

    module _ (prompt : o.should_delay ≡ false) where
      abbrev test_post : Sim T → Sim T
      test_post s = delay_slots o (compare_retired o (count_pc o s))

      pub test_round-Turns : Turns (test_round vtop o)
      unfolding test_round count_performance count_pc differs
      test_round-Turns = record {
        idle = λ s m u e c h r.
            let w = tail-idle test_post (count_performance o m) u c (after s m u e h) r in
            subst (Untouched m) (sym w) (advance-Untouched o plain (count_performance o m));
        show = λ s m u e c z h r.
            shown test_post (count_performance o m) u (λ v. compared o plain (count_pc o v) prompt)
              (λ v. kept o plain (count_pc o v)) c z (after s m u e h) r;
        stops = test_round-Preserves Stopped Stopped-IsStable vtop o;
        clocks = λ s u h.
            let (a, m, e, k) =
              >>=-inv (clock_design vtop o)
                (λ _. do change (count_performance o); tail_with test_post) s h in
            (m, e);
      }
        where
          after :
              (s m u : Sim T)
              → clock_design vtop o s ≡ ret tt m
              → test_round vtop o s ≡ ret tt u
              → tail_with test_post (count_performance o m) ≡ ret tt u
          after s m u e h =
              sym (
                >>=-ret (clock_design vtop o)
                  (λ _. do change (count_performance o); tail_with test_post) s e)
              ∙ h

      abbrev trace_post : Sim T → Sim T
      trace_post s = log (delay_slots o (compare_retired o s))

      pub trace_round-Turns : Turns (trace_round vtop o)
      unfolding trace_round log
      trace_round-Turns = record {
        idle = λ s m u e c h r.
            let w = tail-idle trace_post m u c (after s m u e h) r in
            subst (Untouched m) (sym w) (advance-Untouched o plain m);
        show = λ s m u e c z h r.
            shown trace_post m u (λ v. compared o plain v prompt) (λ v. kept o plain v) c z
              (after s m u e h) r;
        stops = trace_round-Preserves Stopped Stopped-IsStable vtop o;
        clocks = λ s u h.
            let (a, m, e, k) = >>=-inv (clock_design vtop o) (λ _. tail_with trace_post) s h in
            (m, e);
      }
        where
          after :
              (s m u : Sim T)
              → clock_design vtop o s ≡ ret tt m
              → trace_round vtop o s ≡ ret tt u
              → tail_with trace_post m ≡ ret tt u
          after s m u e h = sym (>>=-ret (clock_design vtop o) (λ _. tail_with trace_post) s e) ∙ h
