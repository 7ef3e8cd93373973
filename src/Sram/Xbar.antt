-- ===== src/Sram/Xbar.antt =====
-- difftest/src/nscscc_sram_xbar.hpp: the crossbar from the SRAM port to the devices.
use hdu_cpu_lab.Common.{
  ℕ, ◌+◌, ◌-◌, ◌%◌, Bool, true, false, not, ◌&&◌, ◌||◌, Option, none, some, List, [], ◌∷◌, length,
  take, bit_and, ltb, leb, ◌==◌, get_or, if◌then◌else◌,
}
use Prim.Native.Nat.{min, max}
use hdu_cpu_lab.Common.Bytes.{to_bytes, read_bytes, write_bytes}
use hdu_cpu_lab.Common.Run.{Ran, ret, abort}
use hdu_cpu_lab.Common.Words.{u64, sub64}
use hdu_cpu_lab.Device.{Outcome, done, refused, fault, MmioDev}
use hdu_cpu_lab.Bus.{put}
use hdu_cpu_lab.Bus.Table.{max_key}
use hdu_cpu_lab.Sram.Slave.{SramDev}

-- A key and a value of the std::map: the range with its byte mode, and the device.
pub record Port : Type 0 where
  pub base : ℕ
  pub limit : ℕ
  pub byte_mode : Bool
  pub dev : ℕ

-- The std::map, a list of ports in the order of their keys, and the devices that they point to.
pub record Xbar (D : Type 0) : Type 0 where
  pub devices : List Port
  pub dev : ℕ → D

-- The port's key is at most (k, l, b) in the order of tuples.
abbrev pub key_le : Port → ℕ → ℕ → Bool → Bool
key_le p k l b =
    ltb p.base k || (p.base == k && (ltb p.limit l || (p.limit == l && (not p.byte_mode || b))))

unfoldable pub upper_bound : ℕ → ℕ → Bool → List Port → Option Port
upper_bound k l b [] = none
upper_bound k l b (p ∷ ps) =
    let rest = upper_bound k l b ps in if key_le p k l b then rest else some p

unfoldable pub before_upper : ℕ → ℕ → Bool → List Port → Option Port
before_upper k l b [] = none
before_upper k l b (p ∷ ps) =
    let later = before_upper k l b ps in
    if key_le p k l b then elim later [ none ↦ some p | some q ↦ some q ] else none

abbrev pub same_mode : Bool → Bool → Bool
same_mode a b = if a then b else not b

-- `devices[key] = dev`
unfoldable pub insert : Port → List Port → List Port
insert p [] = p ∷ []
insert p (q ∷ qs) =
    let rest = insert p qs in
    if key_le q p.base p.limit p.byte_mode
    then if q.base == p.base && q.limit == p.limit && same_mode q.byte_mode p.byte_mode
      then p ∷ qs
      else q ∷ rest
    else p ∷ q ∷ qs

unfoldable pub overlaps : Option Port → Port → Bool
overlaps none p = false
overlaps (some q) p = ltb (max q.base p.base) (min q.limit p.limit)

unfoldable pub add_dev : {D : Type 0} → ℕ → ℕ → ℕ → Bool → Xbar D → Ran (Xbar D) Bool
unfolding insert upper_bound before_upper overlaps
add_dev start_addr size dev byte_mode x =
    let p : Port = record {
      base = start_addr;
      limit = u64 (start_addr + size);
      byte_mode = byte_mode;
      dev = dev;
    } in
    if size == 0
    then abort
    else if not (start_addr % size == 0)
    then ret false x
    else if overlaps (upper_bound p.base p.limit p.byte_mode x.devices) p
    then ret false x
    else if overlaps (before_upper p.base p.limit p.byte_mode x.devices) p
    then ret false x
    else ret true (record x { devices = insert p x.devices })

-- The port that `it` stands at after the range test for the last byte `start_addr + size - 1`.
unfoldable pub port_of : List Port → ℕ → ℕ → Option Port
unfolding before_upper
port_of devices start_addr size = elim (before_upper start_addr max_key true devices) [
  | none ↦ none
  | some p ↦ if leb p.base start_addr && leb (u64 (start_addr + size)) p.limit then some p else none
]

-- Storing into the buffer at an offset; outside the object the behaviour is undefined.
unfoldable pub store_at : List ℕ → ℕ → List ℕ → Option (List ℕ)
store_at buffer offset bytes =
    if leb (offset + length bytes) (length buffer)
    then some (read_bytes (write_bytes (λ k. get_or buffer k 0) offset bytes) 0 (length buffer))
    else none

-- `*((uint32_t *)buffer) = 0xdec0dee3`
abbrev pub poison : List ℕ
poison = to_bytes 4 0xdec0dee3

abbrev pub ret_stored : {S : Type 0} → Option (List ℕ) → S → Ran S (List ℕ)
ret_stored none s = abort
ret_stored (some buffer) s = ret buffer s

module _ {D : Type 0} where
  -- What a device's answer does to the buffer: the value of its method is not looked at.
  abbrev pub take_read : Xbar D → ℕ → List ℕ → ℕ → Outcome (List ℕ × D) → Ran (Xbar D) (List ℕ)
  take_read x k buffer offset (done (bytes, d)) =
      ret_stored (store_at buffer offset bytes) (record x { dev = put x.dev k d })
  take_read x k buffer offset refused = ret buffer x
  take_read x k buffer offset fault = abort

  abbrev pub take_write : Xbar D → ℕ → List ℕ → Outcome D → Ran (Xbar D) (List ℕ)
  take_write x k buffer (done d) = ret buffer (record x { dev = put x.dev k d })
  take_write x k buffer refused = ret buffer x
  take_write x k buffer fault = abort

module _ {D : Type 0} ⦃i : MmioDev D⦄ where
  -- The test is made for the first byte only. A port in byte mode is read one byte at a time.
  unfoldable pub do_read : ℕ → ℕ → List ℕ → Xbar D → Ran (Xbar D) (List ℕ)
  unfolding port_of store_at
  do_read start_addr size buffer x = elim (port_of x.devices start_addr 1) [
    | none ↦ ret_stored (store_at buffer 0 poison) x
    | some p ↦
        let size' = if p.byte_mode then 1 else size in
        let addr = if p.byte_mode then start_addr else start_addr - bit_and start_addr (size - 1) in
        take_read x p.dev buffer (addr % size')
          (i.do_read (x.dev p.dev) (addr % sub64 p.limit p.base) size')
  ]

  unfoldable pub do_write : ℕ → ℕ → List ℕ → Xbar D → Ran (Xbar D) (List ℕ)
  unfolding port_of store_at
  do_write start_addr size buffer x = elim (port_of x.devices start_addr size) [
    | none ↦ ret_stored (store_at buffer 0 poison) x
    | some p ↦
        take_write x p.dev buffer
          (i.do_write (x.dev p.dev) (start_addr % sub64 p.limit p.base) (take size buffer))
  ]

-- The crossbar as a slave.
instance abbrev pub xbar_slave : {D : Type 0} ⦃i : MmioDev D⦄ → SramDev (Xbar D)
xbar_slave = record { do_read = do_read; do_write = do_write }
