-- ===== src/Device/Mem/Warp.antt =====
-- The mode of difftest/src/mmio_mem.hpp in which addresses wrap round.
use hdu_cpu_lab.Common.{
  ℕ, ◌+◌, ◌%◌, ◌^◌, ◌≤◌, ◌<◌, ◌≡◌, ◌⊎◌, List, length, arith, ap, ◌∙◌, true, dec_lt, sym, subst,
}
use native.Mathlib.Nat.{mod-eq_of_lt}
use hdu_cpu_lab.Common.Bytes.{read_bytes, read_bytes-write_bytes, read_bytes-write_bytes_apart}
use hdu_cpu_lab.Device.{done}
use hdu_cpu_lab.Device.Mem.{Mem, written, do_read, do_write}
use hdu_cpu_lab.Device.Mem.Laws.{do_read-inside, do_write-inside}

-- Accesses in the mode that wraps round, of a stretch that leaves no copy of the array.
module _ (m : Mem) (a : ℕ) (warps : m.allow_warp ≡ true) (small : m.mem_size < 2 ^ 64) where
  do_read-warp :
      (n : ℕ)
      → 0 < n
      → a + n < 2 ^ 64
      → a % m.mem_size + n ≤ m.mem_size
      → do_read m a n ≡ done (read_bytes m.cell (a % m.mem_size) n, m)
  do_read-warp n some_byte low fits = elim (dec_lt m.mem_size (a + n)) [
    | yes p ↦ unfold do_read in ground arith
    | no p ↦
        do_read-inside m a n (omega arith) small
        ∙ ap (λ x. done (read_bytes m.cell x n, m)) (sym (mod-eq_of_lt (omega arith)))
  ]

  do_write-warp :
      (bs : List ℕ)
      → 0 < length bs
      → a + length bs < 2 ^ 64
      → a % m.mem_size + length bs ≤ m.mem_size
      → do_write m a bs ≡ done (written m (a % m.mem_size) bs)
  do_write-warp bs some_byte low fits = elim (dec_lt m.mem_size (a + length bs)) [
    | yes p ↦ unfold do_write in ground arith
    | no p ↦
        do_write-inside m a bs (omega arith) small
        ∙ ap (λ x. done (written m x bs)) (sym (mod-eq_of_lt (omega arith)))
  ]

-- In the mode that wraps round, with an array of less than 2 ^ 64 bytes: a write of some bytes, which
-- ends below 2 ^ 64 and does not run over the end of a copy of the array, succeeds. A read of as many
-- bytes below 2 ^ 64 then delivers the bytes written at every address that lies as far into a copy of
-- the array, and a read of some bytes below 2 ^ 64 inside a copy delivers the bytes from before the
-- write where the stretches inside the copies do not meet.
pub do_read-do_write_warp :
    (m : Mem) (a : ℕ) (bs : List ℕ)
    → m.allow_warp ≡ true
    → m.mem_size < 2 ^ 64
    → 0 < length bs
    → a + length bs < 2 ^ 64
    → a % m.mem_size + length bs ≤ m.mem_size
    → (m' : Mem) × (do_write m a bs ≡ done m')
      × ((b : ℕ)
          → b + length bs < 2 ^ 64
          → b % m.mem_size ≡ a % m.mem_size
          → do_read m' b (length bs) ≡ done (bs, m'))
      × ((b n : ℕ)
          → 0 < n
          → b + n < 2 ^ 64
          → b % m.mem_size + n ≤ m.mem_size
          → (b % m.mem_size + n ≤ a % m.mem_size) ⊎ (a % m.mem_size + length bs ≤ b % m.mem_size)
          → do_read m' b n ≡ done (read_bytes m.cell (b % m.mem_size) n, m'))
do_read-do_write_warp m a bs warps small some_byte low fits = (
  d,
  do_write-warp m a warps small bs some_byte low fits,
  λ b below same.
      do_read-warp d b warps small (length bs) some_byte below
        (subst (λ x. x + length bs ≤ m.mem_size) (sym same) fits)
      ∙ ap (λ x. done (read_bytes d.cell x (length bs), d)) same
      ∙ ap (λ xs. done (xs, d)) (read_bytes-write_bytes m.cell (a % m.mem_size) bs),
  λ b n some below inside apart.
      do_read-warp d b warps small n some below inside
      ∙ ap (λ xs. done (xs, d))
          (read_bytes-write_bytes_apart m.cell (a % m.mem_size) bs (b % m.mem_size) n apart),
)
  where
    d : Mem
    d = written m (a % m.mem_size) bs
