-- ===== src/Sram/Slave.antt =====
-- difftest/src/nscscc_sram_slave.hpp: what a slave of the SRAM port does in one clock cycle.
use hdu_cpu_lab.Common.{
  ℕ, zero, suc, ◌+◌, ◌-◌, Bool, ◌&&◌, List, [], ◌∷◌, ◌++◌, take, drop, bit_and, ltb, ◌==◌,
  if◌then◌else◌,
}
use hdu_cpu_lab.Common.Bytes.{to_bytes, from_bytes}
use hdu_cpu_lab.Common.Run.{Ran, ret, ◌>>=◌, ◌>>◌, within}
use hdu_cpu_lab.Common.Words.{test_bit}
use hdu_cpu_lab.Sram.{Sram}

-- The virtual methods: an address, a size and the bytes from the pointer on, as far as the object
-- reaches. They return these bytes as they leave them.
pub record SramDev (S : Type 0) : Type 0 where
  pub do_read : ℕ → ℕ → List ℕ → S → Ran S (List ℕ)
  pub do_write : ℕ → ℕ → List ℕ → S → Ran S (List ℕ)

-- class nscscc_sram_slave over the state `S` of the class derived from it; the signals that `pin`
-- refers to; and the global `running`, which a failed assertion of this file clears, in
-- difftest/src/sim_mycpu.cpp, without ending the process.
pub record Slave (S : Type 0) : Type 0 where
  pub address_mask : ℕ
  pub impl : S
  pub pin : Sram
  pub running : Bool

-- The inner loop of `strb_to_range` with `n` rounds to go, until `r` is 8.
unfoldable pub run_end : ℕ → ℕ → ℕ → ℕ
run_end wen zero r = r
run_end wen (suc n) r = let next = run_end wen n (r + 1) in if test_bit wen r then next else r

-- The outer loop. Each round moves `l` on, so that eight rounds are enough.
unfoldable pub ranges : ℕ → ℕ → ℕ → List (ℕ × ℕ)
unfolding run_end
ranges wen zero l = []
ranges wen (suc fuel) l =
    let r = run_end wen (8 - l) l in
    let rest = ranges wen fuel (if test_bit wen l then r + 1 else l + 1) in
    if ltb l 8 then if test_bit wen l then (l, r - l) ∷ rest else rest else []

unfoldable pub strb_to_range : ℕ → List (ℕ × ℕ)
unfolding ranges
strb_to_range wen = ranges wen 8 0

module _ {S : Type 0} where
  abbrev pub set_impl : S → Slave S → Slave S
  set_impl s c = record c { impl = s }

  abbrev pub on_impl : {A : Type 0} → (S → Ran S A) → Slave S → Ran (Slave S) A
  on_impl = within (λ c. c.impl) set_impl

  abbrev pub set_pin : Sram → Slave S → Ran (Slave S) (Unit {0})
  set_pin pin c = ret tt (record c { pin = pin })

  unfoldable pub set_address_mask : ℕ → Slave S → Slave S
  set_address_mask new_mask c = record c { address_mask = new_mask }

module _ {S : Type 0} ⦃dev : SramDev S⦄ where
  -- The loop over the ranges; `data` in the source's signal is `bytes` here.
  unfoldable pub write_ranges : ℕ → List ℕ → List (ℕ × ℕ) → S → Ran S (List ℕ)
  write_ranges base bytes [] = ret bytes
  write_ranges base bytes ((addr, len) ∷ rs) =
      dev.do_write (base + addr) len (drop addr bytes) >>= λ after.
      write_ranges base (take addr bytes ++ after) rs

  unfoldable pub inst_channel : Slave S → Ran (Slave S) (Unit {0})
  inst_channel c =
      if c.pin.inst_sram_en == 0
      then ret tt c
      else (do
        bytes ← on_impl (
            dev.do_read (bit_and c.pin.inst_sram_addr c.address_mask) 4
              (to_bytes 4 c.pin.inst_sram_rdata))
        set_pin (record c.pin { inst_sram_rdata = from_bytes bytes }))
          (record c { running = c.running && c.pin.inst_sram_wen == 0 })

  -- The writes of the data channel.
  unfoldable pub write_channel : Slave S → Ran (Slave S) (Unit {0})
  unfolding write_ranges strb_to_range
  write_channel c =
      if c.pin.data_sram_wen == 0
      then ret tt c
      else (do
        bytes ← on_impl (
            write_ranges (bit_and (bit_and c.pin.data_sram_addr c.address_mask) 0xfffffff8)
              (to_bytes 8 c.pin.data_sram_wdata) (strb_to_range c.pin.data_sram_wen))
        set_pin (record c.pin { data_sram_wdata = from_bytes bytes }))
          c

  -- The read of the data channel, which follows the writes.
  unfoldable pub read_channel : Slave S → Ran (Slave S) (Unit {0})
  read_channel c =
      (do
        bytes ← on_impl (
            dev.do_read (bit_and c.pin.data_sram_addr c.address_mask) 8
              (to_bytes 8 c.pin.data_sram_rdata))
        set_pin (record c.pin { data_sram_rdata = from_bytes bytes }))
        c

  unfoldable pub data_channel : Slave S → Ran (Slave S) (Unit {0})
  unfolding write_channel read_channel
  data_channel c = if c.pin.data_sram_en == 0 then ret tt c else (write_channel >> read_channel) c

  unfoldable pub beat : Slave S → Ran (Slave S) (Unit {0})
  unfolding inst_channel data_channel
  beat = inst_channel >> data_channel
