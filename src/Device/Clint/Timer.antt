-- ===== src/Device/Clint/Timer.antt =====
-- The timer of difftest/src/rv_clint.hpp: its registers on the bus and its interrupt line.
use hdu_cpu_lab.Common.{ℕ, ◌≡◌, subst, List, [], ◌∷◌, length, arith}
use hdu_cpu_lab.Common.Bytes.{from_bytes, read_bytes, write_bytes, read_bytes-write_bytes}
use hdu_cpu_lab.Device.{done}
use hdu_cpu_lab.Device.Clint.{Clint, cells, words, copy_in, do_write}

-- Eight bytes written to 0xbff8 become the time, and nothing else changes.
pub do_write-mtime :
    (c : Clint) (bytes : List ℕ)
    → length bytes ≡ 8
    → do_write c 0xbff8 bytes ≡ done (record c { mtime = from_bytes bytes })
unfolding do_write copy_in words
do_write-mtime c bytes h =
    let m = cells 8 (c.mtime ∷ []) in
    let back : read_bytes (write_bytes m 0 bytes) 0 8 ≡ bytes =
      subst (λ n. read_bytes (write_bytes m 0 bytes) 0 n ≡ bytes) h
        (read_bytes-write_bytes m 0 bytes) in
    ground arith
