-- ===== src/Examples/Memories.antt =====
-- Memory in the mode that wraps round, and a file that is too long for it.
use hdu_cpu_lab.Common.{
  ℕ, ◌+◌, ◌%◌, ◌^◌, ◌≤◌, ◌<◌, ◌≡◌, ◌⊎◌, inl, refl, true, List, [], ◌∷◌, ◌++◌, arith,
}
use hdu_cpu_lab.Common.Bytes.{read_bytes}
use hdu_cpu_lab.Device.{done}
use hdu_cpu_lab.Device.Mem.{Mem, do_read, do_write, load_binary}
use hdu_cpu_lab.Device.Mem.Laws.{do_read-load_binary}
use hdu_cpu_lab.Device.Mem.Warp.{do_read-do_write_warp}
use hdu_cpu_lab.Examples.{memory}

abbrev four : List ℕ
four = 1 ∷ 2 ∷ 3 ∷ 4 ∷ []

abbrev warping : Mem
warping = record memory { allow_warp = true }

do_read-do_write_warp_example :
    (m' : Mem) × (do_write warping 0x8000000b four ≡ done m')
    × ((b : ℕ) → b + 4 < 2 ^ 64 → b % 16 ≡ 11 → do_read m' b 4 ≡ done (four, m'))
    × ((b n : ℕ)
        → 0 < n
        → b + n < 2 ^ 64
        → b % 16 + n ≤ 16
        → (b % 16 + n ≤ 11) ⊎ (15 ≤ b % 16)
        → do_read m' b n ≡ done (read_bytes memory.cell (b % 16) n, m'))
do_read-do_write_warp_example =
    do_read-do_write_warp warping 0x8000000b four refl (omega arith) (omega arith) (omega arith)
      (omega arith)

-- Six copies of four bytes are cut to the sixteen of the memory.
abbrev long_file : List ℕ
long_file = four ++ four ++ four ++ four ++ four ++ four

do_read-load_binary_example :
    (m' : Mem) × (load_binary memory 0 long_file ≡ done m')
    × (do_read m' 0 16 ≡ done (four ++ four ++ four ++ four, m'))
    × ((c n : ℕ)
        → c + n ≤ 16
        → (c + n ≤ 0) ⊎ (24 ≤ c)
        → do_read m' c n ≡ done (read_bytes memory.cell c n, m'))
do_read-load_binary_example = do_read-load_binary memory 0 long_file (omega arith) (inl refl)
