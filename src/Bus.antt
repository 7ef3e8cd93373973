-- ===== src/Bus.antt =====
-- difftest/src/rv_systembus.hpp: physical accesses, reservations and atomic operations over the
-- devices that are mapped into the address space.
pub mod Table
pub mod Amo
pub mod Order
pub mod Insert
pub mod AddDev
pub mod Route
pub mod Access
pub mod FlatRead
pub mod ReadBack
pub mod Reserve
use hdu_cpu_lab.Common.{
  ℕ, ◌+◌, ◌-◌, ◌%◌, ◌^◌, Bool, true, false, not, ◌&&◌, ◌||◌, Option, none, some, List, [], length,
  leb, ◌==◌, if◌then◌else◌,
}
use hdu_cpu_lab.Common.Words.{u64, sub64, sext}
use hdu_cpu_lab.Common.Bytes.{to_bytes, from_bytes}
use hdu_cpu_lab.Device.{Outcome, done, refused, fault, MmioDev}
use Table.{Entry, insert, upper_bound, before_upper, overlaps, max_key}
use hdu_cpu_lab.Common.Run.{Ran, ret, abort, ◌>>=◌}
use Amo.{AmoFunct, to_write}

-- The devices are named by numbers, so that two ranges may lead to one device; `dev` is the state of
-- each. `lr_pa`, `lr_size` and `lr_hart` mean something while `lr_valid` holds.
pub record Bus (D : Type 0) : Type 0 where
  pub devices : List Entry
  pub dev : ℕ → D
  pub lr_pa : ℕ
  pub lr_size : ℕ
  pub lr_hart : ℕ
  pub lr_valid : Bool

-- The entry that `it` stands at after the range test of `pa_read` and `pa_write`.
unfoldable pub route : List Entry → ℕ → ℕ → Option Entry
unfolding before_upper
route devices start_addr size = elim (before_upper start_addr max_key devices) [
  | none ↦ none
  | some e ↦ if leb e.base start_addr && leb (u64 (start_addr + size)) e.limit then some e else none
]

-- The address handed to the device. A range is never of size 0 modulo 2 ^ 64.
abbrev pub device_addr : Entry → ℕ → ℕ
device_addr e start_addr = if e.raw_addr then start_addr else start_addr % sub64 e.limit e.base

abbrev pub put {ℓ} : {A : Type ℓ} → (ℕ → A) → ℕ → A → ℕ → A
put f k v j = if k == j then v else f j

-- The value of a word as the switch of `pa_amo_op` reads it: a word of four bytes is
-- widened with its sign.
abbrev pub loaded : ℕ → List ℕ → ℕ
loaded size bytes = if size == 4 then sext 32 (from_bytes bytes) else from_bytes bytes

module _ {D : Type 0} where
  abbrev pub answer_read : Bus D → ℕ → Outcome (List ℕ × D) → Ran (Bus D) (Option (List ℕ))
  answer_read b k (done (bytes, d)) = ret (some bytes) (record b { dev = put b.dev k d })
  answer_read b k refused = ret none b
  answer_read b k fault = abort

  abbrev pub answer_write : Bus D → ℕ → Outcome D → Ran (Bus D) Bool
  answer_write b k (done d) = ret true (record b { dev = put b.dev k d })
  answer_write b k refused = ret false b
  answer_write b k fault = abort

  -- The test adds the size of the write, not `lr_size`, to the reserved address.
  abbrev pub drop_reservation : Bus D → ℕ → ℕ → Bus D
  drop_reservation b start_addr size =
      if leb start_addr b.lr_pa && leb (u64 (b.lr_pa + size)) (u64 (start_addr + size))
      then record b { lr_valid = false }
      else b

  unfoldable pub add_dev : ℕ → ℕ → ℕ → Bool → Bus D → Ran (Bus D) Bool
  unfolding insert upper_bound before_upper overlaps
  add_dev start_addr size dev raw_addr b =
      let e : Entry = record {
        base = start_addr;
        limit = u64 (start_addr + size);
        raw_addr = raw_addr;
        dev = dev;
      } in
      if size == 0
      then abort
      else if not (start_addr % size == 0)
      then ret false b
      else if overlaps (upper_bound e.base e.limit b.devices) e
      then ret false b
      else if overlaps (before_upper e.base e.limit b.devices) e
      then ret false b
      else ret true (record b { devices = insert e b.devices })

module _ {D : Type 0} ⦃i : MmioDev D⦄ where
  unfoldable pub pa_read : ℕ → ℕ → Bus D → Ran (Bus D) (Option (List ℕ))
  pa_read start_addr size b = elim (route b.devices start_addr size) [
    | none ↦ ret none b
    | some e ↦ answer_read b e.dev (i.do_read (b.dev e.dev) (device_addr e start_addr) size)
  ]

  -- The part of `pa_write` behind the test of the reservation.
  unfoldable pub routed_write : ℕ → List ℕ → Bus D → Ran (Bus D) Bool
  routed_write start_addr bytes b = elim (route b.devices start_addr (length bytes)) [
    | none ↦ ret false b
    | some e ↦ answer_write b e.dev (i.do_write (b.dev e.dev) (device_addr e start_addr) bytes)
  ]

  unfoldable pub pa_write : ℕ → List ℕ → Bus D → Ran (Bus D) Bool
  pa_write start_addr bytes b =
      routed_write start_addr bytes (drop_reservation b start_addr (length bytes))

  unfoldable pub pa_lr : ℕ → ℕ → ℕ → Bus D → Ran (Bus D) (Option (List ℕ))
  pa_lr pa size hart_id b =
      pa_read pa size (record b { lr_pa = pa; lr_size = size; lr_valid = true; lr_hart = hart_id })

  -- The result is `none` where the method returns false, and else the value of `sc_fail`.
  unfoldable pub pa_sc : ℕ → List ℕ → ℕ → Bus D → Ran (Bus D) (Option Bool)
  pa_sc pa bytes hart_id b =
      if not b.lr_valid
        || not (b.lr_pa == pa)
        || not (b.lr_size == length bytes)
        || not (b.lr_hart == hart_id)
      then ret (some true) (if hart_id == b.lr_hart then record b { lr_valid = false } else b)
      else (do ok ← pa_write pa bytes; ret (if ok then some false else none))
          (record b { lr_valid = false })

  -- The result is `none` where the method returns false, and else the value of `dst`.
  unfoldable pub pa_amo_op : ℕ → ℕ → AmoFunct → ℕ → Bus D → Ran (Bus D) (Option ℕ)
  unfolding to_write
  pa_amo_op pa size op src = do
    read ← pa_read pa size
    elim read [
      | none ↦ ret none
      | some bytes ↦ elim (to_write op src (loaded size bytes)) [
        | none ↦ λ _. abort
        | some value ↦ do
          ok ← pa_write pa (to_bytes size value)
          ret (if ok then some (loaded size bytes) else none)
      ]
    ]
