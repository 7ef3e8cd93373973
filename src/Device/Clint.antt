-- ===== src/Device/Clint.antt =====
-- difftest/src/rv_clint.hpp: the timer and the software interrupts of `nr_hart` harts.
pub mod Array
pub mod Programmed
pub mod Registers
pub mod Timer
use hdu_cpu_lab.Common.{
  ℕ, zero, suc, ◌+◌, ◌-◌, ◌*◌, ◌/◌, ◌%◌, ◌^◌, Bool, ◌&&◌, Option, none, some, List, [], ◌∷◌, map,
  length, get_or, replicate, ltb, leb, ◌==◌, if◌then◌else◌,
}
use hdu_cpu_lab.Common.Words.{u64}
use hdu_cpu_lab.Common.Bytes.{read_bytes, write_bytes, from_bytes}
use hdu_cpu_lab.Device.{Outcome, done, refused, fault}

-- The arrays have `nr_hart` members each.
pub record Clint : Type 0 where
  pub nr_hart : ℕ
  pub mtime : ℕ
  pub mtimecmp : List ℕ
  pub msip : List ℕ

unfoldable pub rv_clint : ℕ → Clint
rv_clint nr_hart = record {
  nr_hart = nr_hart;
  mtime = 0;
  mtimecmp = replicate nr_hart 0;
  msip = replicate nr_hart 0;
}

-- An array of words of `w` bytes, seen as bytes, and the first `n` words of such bytes.
abbrev pub cells : ℕ → List ℕ → ℕ → ℕ
cells w xs c = get_or xs (c / w) 0 / 256 ^ (c % w) % 256

unfoldable pub words : ℕ → (ℕ → ℕ) → ℕ → ℕ → List ℕ
words w m base zero = []
words w m base (suc n) = from_bytes (read_bytes m base w) ∷ words w m (base + w) n

-- memcpy out of an array of words at a byte offset, and into it.
unfoldable pub copy_out : ℕ → List ℕ → ℕ → ℕ → Clint → Outcome (List ℕ × Clint)
copy_out w xs offset size c =
    if leb (offset + size) (w * length xs)
    then done (read_bytes (cells w xs) offset size, c)
    else fault

unfoldable pub copy_in : ℕ → List ℕ → ℕ → List ℕ → Outcome (List ℕ)
unfolding words
copy_in w xs offset bytes =
    if leb (offset + length bytes) (w * length xs)
    then done (words w (write_bytes (cells w xs) offset bytes) 0 (length xs))
    else fault

abbrev pub set_mtime : Clint → Outcome (List ℕ) → Outcome Clint
set_mtime c (done (t ∷ ts)) = done (record c { mtime = t })
set_mtime c (done []) = fault
set_mtime c refused = refused
set_mtime c fault = fault

abbrev pub set_mtimecmp : Clint → Outcome (List ℕ) → Outcome Clint
set_mtimecmp c (done xs) = done (record c { mtimecmp = xs })
set_mtimecmp c refused = refused
set_mtimecmp c fault = fault

abbrev pub set_msip : Clint → Outcome (List ℕ) → Outcome Clint
set_msip c (done xs) = done (record c { msip = map (λ x. x % 2) xs })
set_msip c refused = refused
set_msip c fault = fault

unfoldable pub do_read : Clint → ℕ → ℕ → Outcome (List ℕ × Clint)
unfolding copy_out
do_read c start_addr size =
    if leb 0x4000 start_addr
    then if leb 0xbff8 start_addr && leb (u64 (start_addr + size)) 0xc000
      then copy_out 8 (c.mtime ∷ []) (start_addr - 0xbff8) size c
      else if leb (u64 (start_addr + size)) (0x4000 + 8 * c.nr_hart)
      then copy_out 8 c.mtimecmp (start_addr - 0x4000) size c
      else refused
    else if leb (u64 (start_addr + size)) (4 * c.nr_hart)
    then copy_out 4 c.msip start_addr size c
    else refused

unfoldable pub do_write : Clint → ℕ → List ℕ → Outcome Clint
unfolding copy_in
do_write c start_addr bytes =
    if leb 0x4000 start_addr
    then if leb 0xbff8 start_addr && leb (u64 (start_addr + length bytes)) 0xc000
      then set_mtime c (copy_in 8 (c.mtime ∷ []) (start_addr - 0xbff8) bytes)
      else if leb (u64 (start_addr + length bytes)) (0x4000 + 8 * c.nr_hart)
      then set_mtimecmp c (copy_in 8 c.mtimecmp (start_addr - 0x4000) bytes)
      else refused
    else if leb (u64 (start_addr + length bytes)) (4 * c.nr_hart)
    then set_msip c (copy_in 4 c.msip start_addr bytes)
    else refused

unfoldable pub tick : Clint → Clint
tick c = record c { mtime = u64 (c.mtime + 1) }

unfoldable pub synchronize : Clint → ℕ → Clint
synchronize c time = record c { mtime = time }

unfoldable pub get_mtime : Clint → ℕ
get_mtime c = c.mtime

-- The interrupt lines of a hart; `none` is the assertion on the hart's number.
unfoldable pub m_s_irq : Clint → ℕ → Option Bool
m_s_irq c hart_id = if leb c.nr_hart hart_id then none else some (get_or c.msip hart_id 0 % 2 == 1)

unfoldable pub m_t_irq : Clint → ℕ → Option Bool
m_t_irq c hart_id =
    if leb c.nr_hart hart_id then none else some (ltb (get_or c.mtimecmp hart_id 0) c.mtime)
