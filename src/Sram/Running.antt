-- ===== src/Sram/Running.antt =====
-- difftest/src/nscscc_sram_slave.hpp: what a clock cycle does to the global `running` and to the process.
use hdu_cpu_lab.Common.{
  ℕ, ◌-◌, ◌%◌, bit_and, if◌then◌else◌, ◌≡◌, ap, false, ◌&&◌, ◌==◌, Option, none, some, List, [],
  ◌∷◌, ◌++◌, take,
}
use hdu_cpu_lab.Common.Bytes.{from_bytes}
use hdu_cpu_lab.Common.Words.{sub64}
use hdu_cpu_lab.Common.Run.{
  Ran, ret, exits, ◌>>=◌, Preserves, >>=-Preserves, within-Preserves, if-Preserves, set-Preserves,
  ret-Preserves, if-ret, NeverExits, ret≢exits, >>=-NeverExits, within-NeverExits, if-exits,
}
use hdu_cpu_lab.Sram.{Sram}
use hdu_cpu_lab.Device.{Outcome, done, refused, fault, MmioDev}
use hdu_cpu_lab.Sram.Xbar.{
  Xbar, xbar_slave, port_of, store_at, poison, ret_stored, take_read, take_write,
}
use hdu_cpu_lab.Sram.Xbar
use hdu_cpu_lab.Sram.Slave.{
  write_ranges, SramDev, Slave, on_impl, set_pin, inst_channel, write_channel, read_channel,
  data_channel, beat,
}

abbrev pub Halted : {S : Type 0} → Slave S → Type 0
Halted c = c.running ≡ false

module _ {S : Type 0} where
  on_impl-Halted : {A : Type 0} (m : S → Ran S A) → Preserves {S = Slave S} Halted (on_impl m)
  on_impl-Halted m =
      within-Preserves (λ _. Unit {0}) Halted _ _ m (λ c h. tt) (λ s c h _. h) (λ s a t p e. tt)

  -- Bytes from the device go to a signal.
  to_pin-Halted :
      (m : S → Ran S (List ℕ)) (f : List ℕ → Sram)
      → Preserves {S = Slave S} Halted (do bytes ← on_impl m; set_pin (f bytes))
  to_pin-Halted m f =
      >>=-Preserves Halted _ _ (on_impl-Halted m)
        (λ bytes. set-Preserves Halted tt (λ c. record c { pin = f bytes }) (λ c h. h))

module _ {S : Type 0} ⦃dev : SramDev S⦄ where
  inst_channel-Halted : Preserves {S = Slave S} Halted inst_channel
  unfolding inst_channel
  inst_channel-Halted c a u h = if-ret (c.pin.inst_sram_en == 0) (ret-Preserves Halted tt c a u h) (
      to_pin-Halted _ (λ bytes. record c.pin { inst_sram_rdata = from_bytes bytes }) _ a u
        (ap (λ r. r && c.pin.inst_sram_wen == 0) h))

  write_channel-Halted : Preserves {S = Slave S} Halted write_channel
  unfolding write_channel
  write_channel-Halted c =
      if-Preserves Halted (c.pin.data_sram_wen == 0) (ret tt) _ (ret-Preserves Halted tt)
        (to_pin-Halted _ _) c

  read_channel-Halted : Preserves {S = Slave S} Halted read_channel
  unfolding read_channel
  read_channel-Halted c = to_pin-Halted _ _ c

  pub beat-Halted : Preserves {S = Slave S} Halted beat
  unfolding beat data_channel
  beat-Halted = >>=-Preserves Halted _ _ inst_channel-Halted (λ _ c.
      if-Preserves Halted (c.pin.data_sram_en == 0) (ret tt) _ (ret-Preserves Halted tt)
        (>>=-Preserves Halted _ _ write_channel-Halted (λ _. read_channel-Halted)) c)

-- The device never ends the process.
pub record StaysAlive (S : Type 0) ⦃dev : SramDev S⦄ : Type 0 where
  pub reads : (a n : ℕ) (buffer : List ℕ) → NeverExits (dev.do_read a n buffer)
  pub writes : (a n : ℕ) (buffer : List ℕ) → NeverExits (dev.do_write a n buffer)

module _ {S : Type 0} ⦃dev : SramDev S⦄ (alive : StaysAlive S) where
  write_ranges-NeverExits :
      (base : ℕ) (bytes : List ℕ) (rs : List (ℕ × ℕ))
      → NeverExits {S = S} (write_ranges base bytes rs)
  unfolding write_ranges
  write_ranges-NeverExits base bytes [] = ret≢exits bytes
  write_ranges-NeverExits base bytes ((addr, len) ∷ rs) =
      >>=-NeverExits _ _ (alive.writes _ _ _)
        (λ after. write_ranges-NeverExits base (take addr bytes ++ after) rs)

  to_pin-NeverExits :
      (m : S → Ran S (List ℕ)) (f : List ℕ → Sram)
      → NeverExits m
      → NeverExits {S = Slave S} (do bytes ← on_impl m; set_pin (f bytes))
  to_pin-NeverExits m f h =
      >>=-NeverExits _ _ (within-NeverExits (λ c. c.impl) _ m h) (λ bytes c. ret≢exits tt _)

  inst_channel-NeverExits : NeverExits {S = Slave S} inst_channel
  unfolding inst_channel
  inst_channel-NeverExits c n = if-exits (c.pin.inst_sram_en == 0) (ret≢exits tt c n) (
      to_pin-NeverExits _ (λ bytes. record c.pin { inst_sram_rdata = from_bytes bytes })
        (alive.reads _ _ _) _ n)

  write_channel-NeverExits : NeverExits {S = Slave S} write_channel
  unfolding write_channel
  write_channel-NeverExits c n =
      if-exits (c.pin.data_sram_wen == 0) (ret≢exits tt c n)
        (to_pin-NeverExits _ _ (write_ranges-NeverExits _ _ _) c n)

  read_channel-NeverExits : NeverExits {S = Slave S} read_channel
  unfolding read_channel
  read_channel-NeverExits c n = to_pin-NeverExits _ _ (alive.reads _ _ _) c n

  data_channel-NeverExits : NeverExits {S = Slave S} data_channel
  unfolding data_channel
  data_channel-NeverExits c n =
      if-exits (c.pin.data_sram_en == 0) (ret≢exits tt c n)
        (>>=-NeverExits _ _ write_channel-NeverExits (λ _. read_channel-NeverExits) c n)

  pub beat-NeverExits : NeverExits {S = Slave S} beat
  unfolding beat
  beat-NeverExits = >>=-NeverExits _ _ inst_channel-NeverExits (λ _. data_channel-NeverExits)

module _ {D : Type 0} ⦃i : MmioDev D⦄ where
  ret_stored≢exits : (r : Option (List ℕ)) (x : Xbar D) (n : ℕ) → ¬ (ret_stored r x ≡ exits n)
  ret_stored≢exits none x n e = cc
  ret_stored≢exits (some bytes) x n e = cc

  take_read≢exits :
      (x : Xbar D) (k : ℕ) (buffer : List ℕ) (offset n : ℕ) (r : Outcome (List ℕ × D))
      → ¬ (take_read x k buffer offset r ≡ exits n)
  take_read≢exits x k buffer offset n (done (bytes, d)) e = ret_stored≢exits _ _ n e
  take_read≢exits x k buffer offset n refused e = cc
  take_read≢exits x k buffer offset n fault e = cc

  take_write≢exits :
      (x : Xbar D) (k : ℕ) (buffer : List ℕ) (n : ℕ) (r : Outcome D)
      → ¬ (take_write x k buffer r ≡ exits n)
  take_write≢exits x k buffer n (done d) e = cc
  take_write≢exits x k buffer n refused e = cc
  take_write≢exits x k buffer n fault e = cc

  pub xbar-StaysAlive : StaysAlive (Xbar D)
  unfolding Xbar.do_read Xbar.do_write
  xbar-StaysAlive = record { reads = read; writes = write }
    where
      read :
          (a n : ℕ) (buffer : List ℕ) (x : Xbar D) (m : ℕ) → ¬ (Xbar.do_read a n buffer x ≡ exits m)
      read a n buffer x m =
          elim (port_of x.devices a 1)
            as (λ r. ¬ (
              elim r [
                | none ↦ ret_stored (store_at buffer 0 poison) x
                | some p ↦
                    let size' = if p.byte_mode then 1 else n in
                    let addr = if p.byte_mode then a else a - bit_and a (n - 1) in
                    take_read x p.dev buffer (addr % size')
                      (i.do_read (x.dev p.dev) (addr % sub64 p.limit p.base) size')
              ]
              ≡ exits m)) [
                | none ↦ ret_stored≢exits _ x m
                | some p ↦ take_read≢exits x p.dev buffer _ m _
              ]

      write :
          (a n : ℕ) (buffer : List ℕ) (x : Xbar D) (m : ℕ)
          → ¬ (Xbar.do_write a n buffer x ≡ exits m)
      write a n buffer x m =
          elim (port_of x.devices a n)
            as (λ r. ¬ (
              elim r [
                | none ↦ ret_stored (store_at buffer 0 poison) x
                | some p ↦
                    take_write x p.dev buffer
                      (i.do_write (x.dev p.dev) (a % sub64 p.limit p.base) (take n buffer))
              ]
              ≡ exits m)) [
                | none ↦ ret_stored≢exits _ x m
                | some p ↦ take_write≢exits x p.dev buffer m _
              ]
