-- ===== src/Sim/Lockstep.antt =====
-- The loops of difftest/src/sim_mycpu.cpp, without the options -delay and -hasdelayslot: what a round
-- that goes on has compared.
use hdu_cpu_lab.Common.{
  ◌≡◌, ap, ◌∙◌, subst, refl, inl, inr, ◌⊎◌, Bool, true, false, not, ◌==◌, if◌then◌else◌, arith,
}
use hdu_cpu_lab.Common.Run.{
  Ran, ret, ◌>>◌, Preserves, ret-Preserves, >>=-Preserves, within-Preserves, test-Preserves,
  set-Preserves, >>=-inv, within-inv, ret-inj,
}
use hdu_cpu_lab.Device.Mem.{Mem}
use hdu_cpu_lab.Device.Mem.Laws.{mem_dev}
use hdu_cpu_lab.Sram.Slave.{beat}
use hdu_cpu_lab.Sram.Xbar.{xbar_slave}
use hdu_cpu_lab.Core.State.{Core, dump_pc_history}
use hdu_cpu_lab.Core.History.{emptied, dump_pc_history-inv}
use hdu_cpu_lab.Core.{exec}
use hdu_cpu_lab.Priv.Registers.{Config}
use hdu_cpu_lab.Sim.Design.{Ports, Vtop}
use hdu_cpu_lab.Sim.State.{Flags, Sim, config_of}
use hdu_cpu_lab.Sim.Tick.{
  on_core, change, drive, rising, answer, retire, differs, compare_retired, delay_slots, advance,
  eval, clock_design, dump_if, stuck_dumps,
}

-- The design shows what the reference model has just executed.
pub record Agrees (p : Ports) (c : Core Mem) : Type 0 where
  pub same_pc : p.debug_pc ≡ c.debug_pc
  pub same_write :
      (c.debug_reg_num ≡ 0)
      ⊎ (p.debug_rf_wnum ≡ c.debug_reg_num) × (p.debug_rf_wdata ≡ c.debug_reg_wdata)

-- A step of the reference model without interrupts from the devices.
abbrev pub Steps : Config → Core Mem → Core Mem → Type 0
Steps config c d = exec config false false false false c ≡ ret tt d

-- What stays while the design is clocked.
abbrev pub Untouched : {T : Type 0} → Sim T → Sim T → Type 0
Untouched s t = (t.core ≡ s.core) × (t.delayslot_cnt ≡ s.delayslot_cnt)

module _ {T : Type 0} (vtop : Vtop T) (o : Flags) where
  pub clock_design-Untouched : (s : Sim T) → Preserves (Untouched s) (clock_design vtop o)
  unfolding clock_design drive
  clock_design-Untouched s =
      >>=-Preserves P _ _ (set-Preserves P tt (λ u. eval vtop o (drive u)) (λ u h. h)) (λ _.
        test-Preserves P rising _ _
          (>>=-Preserves P _ _
            (within-Preserves (λ _. Unit {0}) P (λ u. u.mmio) (λ m u. record u { mmio = m }) beat
              (λ u h. tt) (λ m u h _. h) (λ a b c d e. tt))
            (λ _. set-Preserves P tt (λ u. eval vtop o (answer u)) (λ u h. h)))
          (ret-Preserves P tt))
    where
      P : Sim T → Type 0
      P = Untouched s

-- A state whose reference model has lost the entries of its histories.
abbrev pub dumped : {T : Type 0} → Sim T → Sim T
dumped s = record s { core = emptied s.core }

pub dumped-differs : {T : Type 0} (s : Sim T) → differs (dumped s) ≡ differs s
unfolding differs
dumped-differs s = refl

pub dump_if-inv :
    {T : Type 0} (test : Sim T → Bool) (s u : Sim T) {a : Unit {0}}
    → dump_if test s ≡ ret a u
    → (test s ≡ false) × (u ≡ s) ⊎ (test s ≡ true) × (u ≡ dumped s)
dump_if-inv test s u {a} h = go (test s) refl h
  where
    go :
        (x : Bool)
        → test s ≡ x
        → (if x then on_core dump_pc_history s else ret tt s) ≡ ret a u
        → (test s ≡ false) × (u ≡ s) ⊎ (test s ≡ true) × (u ≡ dumped s)
    go false e k = inl (e, ret-inj k)
    go true e k =
        let (b, d, q, p) =
          within-inv (λ v. v.core) (λ c v. record v { core = c }) dump_pc_history s k in
        inr (e, p ∙ ap (λ c. record s { core = c }) (dump_pc_history-inv s.core q))

-- A dump at the end of a round comes with the end of the loop.
pub stuck-stops :
    {T : Type 0} (o : Flags) (s : Sim T)
    → stuck_dumps o (advance o s) ≡ true
    → (advance o s).mmio.running ≡ false
unfolding advance
stuck-stops o s h = ground arith

module _ {T : Type 0} (o : Flags) (plain : o.has_delayslot ≡ false) where
  abbrev pub stepped : Sim T → Core Mem → Sim T
  stepped s c = record s { core = c; last_commit = s.ticks }

  pub retire-inv :
      (s : Sim T) {a : Unit {0}} {u : Sim T}
      → retire o s ≡ ret a u
      → (c : Core Mem) × Steps (config_of o) s.core c × (u ≡ stepped s c)
  unfolding retire
  retire-inv s {a} h =
      let (b, t, q, r) = >>=-inv (choice o.has_delayslot) (λ _. change since) s h in
      let (i, c, e, p) =
        within-inv (λ u. u.core) (λ c u. record u { core = c })
          (exec (config_of o) false false false false) s
          (subst (λ x. choice x s ≡ ret b t) plain q) in
      (c, e, ret-inj r ∙ ap since p)
    where
      since : Sim T → Sim T
      since u = record u { last_commit = u.ticks }

      choice : Bool → Sim T → Ran (Sim T) (Unit {0})
      choice x s =
          if not x
          then on_core (exec (config_of o) false false false false) s
          else if s.delayslot_cnt == 0
          then (do
            on_core (exec (config_of o) false false false false)
            change (λ s. record s { delayslot_flag = true }))
              s
          else ret tt s

  pub agree : (s : Sim T) → s.delayslot_cnt ≡ 0 → differs s ≡ false → Agrees s.top s.core
  unfolding differs
  agree s z h = record { same_pc = ground arith; same_write = ground arith }

  pub advance-running : (s : Sim T) → (advance o s).mmio.running ≡ true → s.mmio.running ≡ true
  unfolding advance
  advance-running s h = ground arith

  pub advance-Untouched : (s : Sim T) → Untouched s (advance o s)
  unfolding advance
  advance-Untouched s = (ground arith, ground arith)

  -- A loop that goes on after the comparison has found no difference.
  pub compared :
      (s : Sim T)
      → o.should_delay ≡ false
      → (delay_slots o (compare_retired o s)).mmio.running ≡ true
      → differs s ≡ false
  unfolding delay_slots compare_retired
  compared s prompt h = ground arith

  pub kept : (s : Sim T) → Untouched s (delay_slots o (compare_retired o s))
  unfolding delay_slots compare_retired
  kept s = (ground arith, ground arith)
