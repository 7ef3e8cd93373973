-- ===== src/Sim/Setup.antt =====
-- What riscv_test_run and make_cpu_trace of difftest/src/sim_mycpu.cpp do before their loops.
use hdu_cpu_lab.Common.{
  ℕ, zero, suc, ◌+◌, ◌≡◌, refl, inl, inr, ◌∙◌, sym, ap, subst, ◌≤◌, ◌<◌, ◌⊎◌, ◌^◌, none, Option,
  dec_lt, Bool, true, false, some, List, [], ◌∷◌, arith, if◌then◌else◌,
}
use hdu_cpu_lab.Device.Mem.{Mem, mmio_mem_file, mmio_mem}
use hdu_cpu_lab.Device.Mem.Laws.{mem_dev}
use hdu_cpu_lab.Bus
use hdu_cpu_lab.Bus.{pa_read, route, put}
use hdu_cpu_lab.Sram.Xbar.{port_of, store_at}
use hdu_cpu_lab.Bus.Table.{Entry}
use hdu_cpu_lab.Sram.Xbar.{Port, Xbar}
use hdu_cpu_lab.Sram.Xbar
use hdu_cpu_lab.Bus.Order.{In}
use hdu_cpu_lab.Bus.Access.{IsFlat}
use hdu_cpu_lab.Sv39.{Mmu}
use hdu_cpu_lab.Sv39.Tlb.{rv_sv39}
use hdu_cpu_lab.Core.{rv_core, jump}
use hdu_cpu_lab.Core.Kept.{same-IsKept, IsKept, set_gpr-IsKept}
use hdu_cpu_lab.Core.Step.{rv_core-IsKept}
use hdu_cpu_lab.Core.State.{Core, set_gpr}
use hdu_cpu_lab.Sim.Design.{Ports}
use hdu_cpu_lab.Sim.State.{Flags, Sim, config_of}
use hdu_cpu_lab.Sim.{
  Uninitialised, mem_base, cemu_system_bus, rtl_xbar, number_gprs, cemu_rvcore, at_start, setup,
}

-- The one entry of the reference model's bus, and of the crossbar.
abbrev pub cemu_entry : Entry
cemu_entry = record { base = 0x80000000; limit = 0x100000000; dev = 0; raw_addr = false }

abbrev pub rtl_port : Port
rtl_port = record { base = 0x80000000; limit = 0x100000000; byte_mode = false; dev = 0 }

-- The reference model's bus and the crossbar with their memory.
abbrev pub cemu_bus : Uninitialised → List ℕ → Bus.Bus Mem
cemu_bus u file = record (cemu_system_bus u file) { devices = cemu_entry ∷ [] }

abbrev pub rtl_bus : Uninitialised → List ℕ → Xbar Mem
rtl_bus u file = record (rtl_xbar u file) { devices = rtl_port ∷ [] }

module _ (u : Uninitialised) (file : List ℕ) where
  pub setup_lem :
      {T : Type 0} (o : Flags) (delay : ℕ) (running : Bool) (top : Ports) (rest : T)
      → setup o u file delay running top rest
        ≡ some
            (at_start o delay running top rest (cemu_rvcore o u (cemu_bus u file)) (rtl_bus u file))
  unfolding setup Bus.add_dev Xbar.add_dev cemu_system_bus rtl_xbar
  setup_lem o delay true top rest = refl
  setup_lem o delay false top rest = refl

  cemu_bus-IsFlat : IsFlat (cemu_bus u file)
  unfolding cemu_system_bus mmio_mem_file mmio_mem
  cemu_bus-IsFlat = record {
    ordered = (omega arith, (omega arith, omega arith, refl), tt);
    offsets = λ e. only_raw e;
    bounded = λ k. refl;
    once = λ e f h k _. only e h ∙ sym (only f k);
  }
    where
      only : (e : Entry) → In e (cemu_entry ∷ []) → e ≡ cemu_entry
      only e (inl h) = h
      only e (inr h) = elim h [ ]

      only_raw : (e : Entry) → In e (cemu_entry ∷ []) → e.raw_addr ≡ false
      only_raw e h = ap (λ x. x.raw_addr) (only e h)

  number_gprs-IsKept : (n i : ℕ) (c : Core Mem) → IsKept c → IsKept (number_gprs n i c)
  unfolding number_gprs
  number_gprs-IsKept zero i c k = k
  number_gprs-IsKept (suc n) i c k =
      number_gprs-IsKept n (i + 1) (set_gpr i i c) (set_gpr-IsKept i i c k)

  pub cemu_rvcore-IsKept : (o : Flags) (bus : Bus.Bus Mem) → IsKept (cemu_rvcore o u bus)
  unfolding cemu_rvcore jump
  cemu_rvcore-IsKept o bus = if-IsKept o.init_gprs (number_gprs-IsKept 32 0 _ kept) kept
    where
      mmu : Mmu Mem
      mmu = record { sv39 = rv_sv39 u.tlb; bus = bus }

      kept : IsKept (jump mem_base (rv_core (config_of o) 0 u.misa u.core mmu))
      kept =
          let k = rv_core-IsKept (config_of o) 0 u.misa u.core mmu in
          same-IsKept refl refl refl refl k

      if-IsKept : (x : Bool) {c d : Core Mem} → IsKept c → IsKept d → IsKept (if x then c else d)
      if-IsKept true k l = k
      if-IsKept false k l = l

  number_gprs-bus : (n i : ℕ) (c : Core Mem) → (number_gprs n i c).priv.mmu.bus ≡ c.priv.mmu.bus
  unfolding number_gprs
  number_gprs-bus zero i c = refl
  number_gprs-bus (suc n) i c = number_gprs-bus n (i + 1) (set_gpr i i c)

  pub cemu_rvcore-bus : (o : Flags) (bus : Bus.Bus Mem) → (cemu_rvcore o u bus).priv.mmu.bus ≡ bus
  unfolding cemu_rvcore jump rv_core
  cemu_rvcore-bus o bus = go o.init_gprs
    where
      c : Core Mem
      c =
          jump mem_base
            (rv_core (config_of o) 0 u.misa u.core (record { sv39 = rv_sv39 u.tlb; bus = bus }))

      go : (x : Bool) → (if x then number_gprs 32 0 c else c).priv.mmu.bus ≡ bus
      go true = number_gprs-bus 32 0 c
      go false = refl

  -- What giving the registers their numbers leaves in them, and that it does not jump.
  number_gprs-below : (n i : ℕ) (c : Core Mem) (k : ℕ) → k < i → (number_gprs n i c).gpr k ≡ c.gpr k
  unfolding number_gprs
  number_gprs-below zero i c k h = refl
  number_gprs-below (suc n) i c k h =
      number_gprs-below n (i + 1) (set_gpr i i c) k (omega arith) ∙ ground arith

  number_gprs-gpr :
      (n i : ℕ) (c : Core Mem) (k : ℕ)
      → c.gpr 0 ≡ 0
      → i ≤ k
      → k < i + n
      → (number_gprs n i c).gpr k ≡ k
  unfolding number_gprs
  number_gprs-gpr zero i c k z h p = absurd (omega arith)
  number_gprs-gpr (suc n) i c k z h p = elim (dec_lt i k) [
    | yes q ↦ number_gprs-gpr n (i + 1) (set_gpr i i c) k (ground arith) (omega arith) (omega arith)
    | no q ↦
        let e : k ≡ i = omega arith in
        number_gprs-below n (i + 1) (set_gpr i i c) k (omega arith)
        ∙ subst (λ j. (set_gpr j j c).gpr k ≡ k) e (own k)
  ]
    where
      own : (k : ℕ) → (set_gpr k k c).gpr k ≡ k
      own zero = z
      own (suc k) = ground arith

  number_gprs-pc : (n i : ℕ) (c : Core Mem) → (number_gprs n i c).pc ≡ c.pc
  unfolding number_gprs
  number_gprs-pc zero i c = refl
  number_gprs-pc (suc n) i c = number_gprs-pc n (i + 1) (set_gpr i i c)

  cemu_rvcore-begins :
      (o : Flags) (bus : Bus.Bus Mem)
      → ((cemu_rvcore o u bus).pc ≡ 0x80000000)
        × ((k : ℕ) → k < 32 → (cemu_rvcore o u bus).gpr k ≡ (if o.init_gprs then k else 0))
  unfolding cemu_rvcore jump rv_core
  cemu_rvcore-begins o bus = go o.init_gprs
    where
      c : Core Mem
      c =
          jump mem_base
            (rv_core (config_of o) 0 u.misa u.core (record { sv39 = rv_sv39 u.tlb; bus = bus }))

      go :
          (x : Bool)
          → ((if x then number_gprs 32 0 c else c).pc ≡ 0x80000000)
            × ((k : ℕ)
                → k < 32
                → (if x then number_gprs 32 0 c else c).gpr k ≡ (if x then k else 0))
      go true =
          (number_gprs-pc 32 0 c, λ k h. number_gprs-gpr 32 0 c k refl (omega arith) (omega arith))
      go false = (refl, λ k h. refl)

-- A table that leads every access inside the 2 GB from 0x80000000 on to one entry, and every access
-- below 2 ^ 64 that leaves them to none.
abbrev pub MapsOnce : {E : Type 0} → (ℕ → ℕ → Option E) → E → Type 0
MapsOnce find e =
    (a n : ℕ)
    → 0 < n
    → (0x80000000 ≤ a → a + n ≤ 0x100000000 → find a n ≡ some e)
      × (a + n < 2 ^ 64 → (a < 0x80000000) ⊎ (0x100000000 < a + n) → find a n ≡ none)

cemu_entry-MapsOnce : MapsOnce (route (cemu_entry ∷ [])) cemu_entry
unfolding route
cemu_entry-MapsOnce a n h = (λ p q. ground arith, λ p q. ground arith)

rtl_port-MapsOnce : MapsOnce (port_of (rtl_port ∷ [])) rtl_port
unfolding port_of
rtl_port-MapsOnce a n h = (λ p q. ground arith, λ p q. ground arith)

-- What the loops rely on when they start.
pub record IsReady {T : Type 0} (o : Flags) (running : Bool) (s : Sim T) : Type 0 where
  pub still_running : s.mmio.running ≡ running
  pub core_kept : IsKept s.core
  pub bus_flat : IsFlat s.core.priv.mmu.bus
  pub bus_maps : MapsOnce (route s.core.priv.mmu.bus.devices) cemu_entry
  pub xbar_maps : MapsOnce (port_of s.mmio.impl.devices) rtl_port
  pub same_size :
      ((s.core.priv.mmu.bus.dev 0).mem_size ≡ 2 ^ 27) × ((s.mmio.impl.dev 0).mem_size ≡ 2 ^ 27)
  pub begins_at : s.core.pc ≡ 0x80000000
  pub numbered : (k : ℕ) → k < 32 → s.core.gpr k ≡ (if o.init_gprs then k else 0)

module _ {T : Type 0} (o : Flags) (u : Uninitialised) (file : List ℕ) (delay : ℕ) (running : Bool)
    (top : Ports) (rest : T) where
  -- The code before the loops runs without undefined behaviour and its assertions hold: the global
  -- `running` is as the test of the wires left it. The reference model is well formed, and its bus
  -- is flat: in order, by offset, a memory at most once. The bus and the crossbar lead every non-
  -- empty access inside the 2 GB from 0x80000000 on to the one entry of their device 0, a memory of
  -- 2 ^ 27 bytes, and every other non-empty access below 2 ^ 64 to none. The reference model begins
  -- at 0x80000000, and its registers hold their numbers with the option init_gprs and 0 without it.
  pub setup-IsReady :
      (s : Sim T) × (setup o u file delay running top rest ≡ some s) × IsReady o running s
  unfolding cemu_system_bus rtl_xbar mmio_mem_file mmio_mem
  setup-IsReady = (
    _,
    setup_lem u file o delay running top rest,
    record {
      still_running = refl;
      core_kept = cemu_rvcore-IsKept u file o (cemu_bus u file);
      bus_flat = on_bus IsFlat (cemu_bus-IsFlat u file);
      bus_maps = on_bus (λ b. MapsOnce (route b.devices) cemu_entry) cemu_entry-MapsOnce;
      xbar_maps = rtl_port-MapsOnce;
      same_size = (on_bus (λ b. (b.dev 0).mem_size ≡ 2 ^ 27) refl, refl);
      begins_at = (cemu_rvcore-begins u file o (cemu_bus u file)).0;
      numbered = (cemu_rvcore-begins u file o (cemu_bus u file)).1;
    },
  )
    where
      on_bus :
          (P : Bus.Bus Mem → Type 0)
          → P (cemu_bus u file)
          → P (cemu_rvcore o u (cemu_bus u file)).priv.mmu.bus
      on_bus P = subst P (sym (cemu_rvcore-bus u file o (cemu_bus u file)))
