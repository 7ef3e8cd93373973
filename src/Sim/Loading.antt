-- ===== src/Sim/Loading.antt =====
-- The program that both models load, difftest/src/sim_mycpu.cpp.
use hdu_cpu_lab.Common.{
  ℕ, ◌+◌, ◌%◌, ◌≡◌, refl, bit_and, ◌-◌, ◌^◌, ◌⊎◌, inl, inr, ◌∙◌, sym, ap, take, subst, Bool, some,
  List, [], ◌∷◌, ◌≤◌, ◌<◌, length, get_or, ltb, arith, if◌then◌else◌,
}
use hdu_cpu_lab.Common.Bytes.{
  read_bytes, read_bytes_ext, length-read_bytes, write_bytes, write_bytes_inside,
}
use hdu_cpu_lab.Common.Bits.{bit_and_low}
use hdu_cpu_lab.Common.Run.{ret}
use hdu_cpu_lab.Device.Mem.{Mem, do_read, mmio_mem_file, mmio_mem}
use hdu_cpu_lab.Device.Mem.Laws.{mem_dev, take-length, do_read-inside}
use hdu_cpu_lab.Device.{done}
use hdu_cpu_lab.Bus
use hdu_cpu_lab.Bus.{pa_read, route, put}
use hdu_cpu_lab.Bus.Table.{before_upper}
use hdu_cpu_lab.Sram.Xbar.{port_of, store_at}
use hdu_cpu_lab.Bus.Table.{Entry}
use hdu_cpu_lab.Sram.Xbar.{Port, Xbar}
use hdu_cpu_lab.Sram.Xbar
use hdu_cpu_lab.Sram.Load.{ported_read, put_same, store_all}
use hdu_cpu_lab.Sim.Design.{Ports}
use hdu_cpu_lab.Sim.State.{Flags, Sim}
use mathlib.Core.Option.{some_inj}
use hdu_cpu_lab.Sim.Setup.{cemu_entry, rtl_port, cemu_bus, rtl_bus, setup_lem, cemu_rvcore-bus}
use hdu_cpu_lab.Sim.{Uninitialised, mem_bytes, mem_base, cemu_system_bus, rtl_xbar, setup}

-- The bytes of the file.
abbrev pub file_bytes : List ℕ → ℕ → ℕ → List ℕ
file_bytes file = read_bytes (λ k. get_or file k 0)

-- A read that is routed to a memory.
routed_read :
    (b : Bus.Bus Mem) (a n : ℕ) (e : Entry) {bytes : List ℕ} {m : Mem}
    → route b.devices a n ≡ some e
    → do_read (b.dev e.dev) (Bus.device_addr e a) n ≡ done (bytes, m)
    → pa_read a n b ≡ ret (some bytes) (record b { dev = put b.dev e.dev m })
routed_read b a n e r d = unfold pa_read in rw (r, pa_read, d)

module _ (u : Uninitialised) (file : List ℕ) where
  -- Both memories hold the file.
  pub loaded_cell :
      (uninitialised : ℕ → ℕ) (i : ℕ)
      → i < length file
      → length file ≤ mem_bytes
      → (mmio_mem_file uninitialised mem_bytes file).cell i ≡ get_or file i 0
  unfolding mmio_mem_file mmio_mem
  loaded_cell uninitialised i h fits =
      let e : (if ltb mem_bytes (length file) then mem_bytes else length file) ≡ length file =
        ground arith in
      ap (λ k. write_bytes uninitialised 0 (take k file) i) e
      ∙ ap (λ bs. write_bytes uninitialised 0 bs i) (take-length file)
      ∙ ap (write_bytes uninitialised 0 file) (omega arith)
      ∙ write_bytes_inside uninitialised 0 file i h

  -- A read of either memory inside the file.
  pub read_loaded :
      (uninitialised : ℕ → ℕ) (i n : ℕ)
      → i + n ≤ length file
      → length file ≤ mem_bytes
      → read_bytes (mmio_mem_file uninitialised mem_bytes file).cell i n ≡ file_bytes file i n
  read_loaded uninitialised i n h fits =
      read_bytes_ext _ _ i n (λ c p q. loaded_cell uninitialised c (omega arith) fits)

  cemu_routed :
      (i n : ℕ)
      → 0 < n
      → i + n ≤ mem_bytes
      → route (cemu_entry ∷ []) (mem_base + i) n ≡ some cemu_entry
  unfolding route before_upper
  cemu_routed i n p h = ground arith

  cemu_offset : (i : ℕ) → i < mem_bytes → Bus.device_addr cemu_entry (mem_base + i) ≡ i
  cemu_offset i h = ground arith

  device_read :
      (uninitialised : ℕ → ℕ) (i n : ℕ)
      → i + n ≤ length file
      → length file ≤ mem_bytes
      → do_read (mmio_mem_file uninitialised mem_bytes file) i n
        ≡ done (file_bytes file i n, mmio_mem_file uninitialised mem_bytes file)
  unfolding mmio_mem_file mmio_mem
  device_read uninitialised i n h fits =
      do_read-inside (mmio_mem_file uninitialised mem_bytes file) i n (sized (omega arith))
        (wide tt)
      ∙ ap (λ bs. done (bs, mmio_mem_file uninitialised mem_bytes file))
          (read_loaded uninitialised i n h fits)
    where
      sized : i + n ≤ mem_bytes → i + n ≤ (mmio_mem_file uninitialised mem_bytes file).mem_size
      sized h = h

      wide : Unit {0} → (mmio_mem_file uninitialised mem_bytes file).mem_size < 2 ^ 64
      wide _ = omega arith

  pub cemu_read :
      (i n : ℕ)
      → 0 < n
      → i + n ≤ length file
      → length file ≤ mem_bytes
      → pa_read (mem_base + i) n (cemu_bus u file)
        ≡ ret (some (file_bytes file i n)) (cemu_bus u file)
  unfolding cemu_system_bus
  cemu_read i n p h fits =
      routed_read (cemu_bus u file) (mem_base + i) n cemu_entry (cemu_routed i n p (omega arith)) (
        ap (λ a. do_read (mmio_mem_file u.cemu_mem mem_bytes file) a n)
          (cemu_offset i (omega arith))
        ∙ device_read u.cemu_mem i n h fits)
      ∙ ap (λ d. ret (some (file_bytes file i n)) (record (cemu_bus u file) { dev = d }))
          (put_same (cemu_bus u file).dev 0)

  rtl_routed : (i : ℕ) → i < mem_bytes → port_of (rtl_port ∷ []) (mem_base + i) 1 ≡ some rtl_port
  unfolding port_of Xbar.before_upper
  rtl_routed i h = ground arith

  rtl_aligned :
      (i n : ℕ)
      → (n ≡ 4) ⊎ (n ≡ 8)
      → i % n ≡ 0
      → mem_base + i - bit_and (mem_base + i) (n - 1) ≡ mem_base + i
  rtl_aligned i n (inl w) h =
      ap (λ k. mem_base + i - bit_and (mem_base + i) (k - 1)) w
      ∙ ap (λ k. mem_base + i - k) (bit_and_low 2 (mem_base + i))
      ∙ (let e : i % 4 ≡ 0 = sym (ap (λ k. i % k) w) ∙ h in omega arith)
  rtl_aligned i n (inr w) h =
      ap (λ k. mem_base + i - bit_and (mem_base + i) (k - 1)) w
      ∙ ap (λ k. mem_base + i - k) (bit_and_low 3 (mem_base + i))
      ∙ (let e : i % 8 ≡ 0 = sym (ap (λ k. i % k) w) ∙ h in omega arith)

  rtl_lane : (i n : ℕ) → (n ≡ 4) ⊎ (n ≡ 8) → i % n ≡ 0 → (mem_base + i) % n ≡ 0
  rtl_lane i n (inl w) h =
      ap (λ k. (mem_base + i) % k) w
      ∙ (let e : i % 4 ≡ 0 = sym (ap (λ k. i % k) w) ∙ h in omega arith)
  rtl_lane i n (inr w) h =
      ap (λ k. (mem_base + i) % k) w
      ∙ (let e : i % 8 ≡ 0 = sym (ap (λ k. i % k) w) ∙ h in omega arith)

  pub rtl_read :
      (i n : ℕ) (buffer : List ℕ)
      → (n ≡ 4) ⊎ (n ≡ 8)
      → i % n ≡ 0
      → length buffer ≡ n
      → i + n ≤ length file
      → length file ≤ mem_bytes
      → Xbar.do_read (mem_base + i) n buffer (rtl_bus u file)
        ≡ ret (file_bytes file i n) (rtl_bus u file)
  unfolding rtl_xbar
  rtl_read i n buffer w aligned size h fits =
      ported_read (rtl_bus u file) (mem_base + i) (mem_base + i) n buffer rtl_port
        (rtl_routed i (omega arith)) refl (rtl_aligned i n w aligned)
        (ap (λ a. do_read (mmio_mem_file u.rtl_mem mem_bytes file) a n)
            (cemu_offset i (omega arith))
          ∙ device_read u.rtl_mem i n h fits)
        (ap (λ a. store_at buffer a (file_bytes file i n)) (rtl_lane i n w aligned)
          ∙ store_all buffer _ (length-read_bytes (λ k. get_or file k 0) i n ∙ sym size))
      ∙ ap (λ d. ret (file_bytes file i n) (record (rtl_bus u file) { dev = d }))
          (put_same (rtl_bus u file).dev 0)

module _ {T : Type 0} (o : Flags) (u : Uninitialised) (file : List ℕ) (delay : ℕ) (running : Bool)
    (top : Ports) (rest : T) where
  -- A file of at most 2 ^ 27 bytes is seen alike by both models when the loops start. A read of 4 or 8
  -- bytes inside the file, aligned to its size, delivers the file's bytes from the reference model's
  -- bus, and the same bytes from the crossbar into a buffer of that size. Neither read changes
  -- anything.
  pub same_program :
      (s : Sim T) (i n : ℕ) (buffer : List ℕ)
      → setup o u file delay running top rest ≡ some s
      → (n ≡ 4) ⊎ (n ≡ 8)
      → i % n ≡ 0
      → length buffer ≡ n
      → i + n ≤ length file
      → length file ≤ mem_bytes
      → (pa_read (mem_base + i) n s.core.priv.mmu.bus
          ≡ ret (some (file_bytes file i n)) s.core.priv.mmu.bus)
        × (Xbar.do_read (mem_base + i) n buffer s.mmio.impl ≡ ret (file_bytes file i n) s.mmio.impl)
  same_program s i n buffer e w aligned size h fits =
      subst Alike (some_inj.0 (sym (setup_lem u file o delay running top rest) ∙ e)) (
        subst BusReads (sym (cemu_rvcore-bus u file o (cemu_bus u file)))
            (cemu_read u file i n (some_bytes w) h fits),
        rtl_read u file i n buffer w aligned size h fits,
      )
    where
      BusReads : Bus.Bus Mem → Type 0
      BusReads b = pa_read (mem_base + i) n b ≡ ret (some (file_bytes file i n)) b

      Alike : Sim T → Type 0
      Alike s =
          BusReads s.core.priv.mmu.bus
          × (Xbar.do_read (mem_base + i) n buffer s.mmio.impl
              ≡ ret (file_bytes file i n) s.mmio.impl)

      some_bytes : (n ≡ 4) ⊎ (n ≡ 8) → 0 < n
      some_bytes (inl w) = omega arith
      some_bytes (inr w) = omega arith
