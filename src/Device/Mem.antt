-- ===== src/Device/Mem.antt =====
-- difftest/src/mmio_mem.hpp: a byte array behind the device interface.
pub mod Laws
pub mod Warp
use hdu_cpu_lab.Common.{
  ℕ, zero, suc, ◌+◌, ◌-◌, ◌%◌, ◌≡◌, Bool, true, false, not, ◌||◌, ◌&&◌, Option, none, some, List,
  [], ◌∷◌, ◌++◌, length, take, ltb, leb, ◌==◌, if◌then◌else◌,
}
use hdu_cpu_lab.Common.Words.{u64}
use hdu_cpu_lab.Common.Bytes.{read_bytes, write_bytes}
use hdu_cpu_lab.Device.{Outcome, done, refused, fault}

-- `cell` is the array `mem` of `mem_size` bytes. `diff_mem` is the array that the writes are compared
-- with, when one is set. `mismatches` holds the addresses reported as "Error writeback cache". A write
-- that adds one also clears the global `running` in the source, which this state does not hold: nothing
-- in the repository calls set_diff_mem, so the loops never come to it.
pub record Mem : Type 0 where
  pub cell : ℕ → ℕ
  pub mem_size : ℕ
  pub allow_warp : Bool
  pub diff_mem : Option (ℕ → ℕ)
  pub mismatches : List ℕ

-- The array as `new` leaves it is arbitrary.
unfoldable pub mmio_mem : (ℕ → ℕ) → ℕ → Mem
mmio_mem uninitialised size_bytes = record {
  cell = uninitialised;
  mem_size = size_bytes;
  allow_warp = false;
  diff_mem = none;
  mismatches = [];
}

-- The constructor that reads a file: a file that is too long is cut.
unfoldable pub mmio_mem_file : (ℕ → ℕ) → ℕ → List ℕ → Mem
unfolding mmio_mem
mmio_mem_file uninitialised size_bytes file =
    let m = mmio_mem uninitialised size_bytes in
    let file_size = if ltb m.mem_size (length file) then size_bytes else length file in
    record m { cell = write_bytes m.cell 0 (take file_size file) }

-- memcpy out of the array, and into it.
copy_out : Mem → ℕ → ℕ → Outcome (List ℕ × Mem)
copy_out m a size = if leb (a + size) m.mem_size then done (read_bytes m.cell a size, m) else fault

unfoldable pub differing : (ℕ → ℕ) → ℕ → List ℕ → List ℕ
differing other a [] = []
differing other a (b ∷ bs) =
    let rest = differing other (a + 1) bs in if b == other a then rest else a ∷ rest

-- The memory after the bytes are stored, with the addresses at which it differs from the other array.
abbrev pub written : Mem → ℕ → List ℕ → Mem
written m a bytes = record m {
  cell = write_bytes m.cell a bytes;
  mismatches = elim m.diff_mem [
    | none ↦ m.mismatches
    | some other ↦ m.mismatches ++ differing other a bytes
  ];
}

copy_in : Mem → ℕ → List ℕ → Outcome Mem
copy_in m a bytes = if leb (a + length bytes) m.mem_size then done (written m a bytes) else fault

unfoldable pub do_read : Mem → ℕ → ℕ → Outcome (List ℕ × Mem)
unfolding copy_out
do_read m start_addr size =
    if leb (u64 (start_addr + size)) m.mem_size
    then copy_out m start_addr size
    else if m.allow_warp
    then if m.mem_size == 0
      then fault
      else if leb (u64 (start_addr % m.mem_size + size)) m.mem_size
      then copy_out m (start_addr % m.mem_size) size
      else refused
    else refused

unfoldable pub do_write : Mem → ℕ → List ℕ → Outcome Mem
unfolding copy_in
do_write m start_addr bytes =
    if leb (u64 (start_addr + length bytes)) m.mem_size
    then copy_in m start_addr bytes
    else if m.allow_warp
    then if m.mem_size == 0
      then fault
      else if leb (u64 (start_addr % m.mem_size + length bytes)) m.mem_size
      then copy_in m (start_addr % m.mem_size) bytes
      else refused
    else refused

-- The file's bytes that the stream delivers when `file_size` are asked for.
unfoldable pub load_binary : Mem → ℕ → List ℕ → Outcome Mem
load_binary m start_addr file =
    let too_big = leb m.mem_size start_addr || ltb (m.mem_size - start_addr) (length file) in
    let bytes = take (if too_big then m.mem_size else length file) file in
    if leb (start_addr + length bytes) m.mem_size
    then done (record m { cell = write_bytes m.cell start_addr bytes })
    else fault

unfoldable pub save_binary : Mem → List ℕ
save_binary m = read_bytes m.cell 0 m.mem_size

-- The argument is not looked at.
unfoldable pub set_allow_warp : Mem → Bool → Mem
set_allow_warp m value = record m { allow_warp = true }

unfoldable pub set_diff_mem : Mem → (ℕ → ℕ) → Mem
set_diff_mem m other = record m { diff_mem = some other }
