-- ===== src/Device/Mem/Laws.antt =====
-- The memory device of difftest/src/mmio_mem.hpp for its clients.
use hdu_cpu_lab.Common.{
  ℕ, zero, suc, ◌+◌, ◌%◌, ◌^◌, ◌≤◌, ◌<◌, ◌≡◌, refl, ◌⊎◌, false, if◌then◌else◌, leb, List, [], ◌∷◌,
  length, take, arith, ap, ◌∙◌, dec_lt, subst,
}
use Prim.Native.Nat.{min}
use hdu_cpu_lab.Common.Bytes.{
  read_bytes, write_bytes, length-read_bytes, read_bytes-write_bytes, read_bytes-write_bytes_apart,
}
use hdu_cpu_lab.Device.{done, refused, fault, MmioDev}
use hdu_cpu_lab.Device.Mem.{Mem, written, do_read, do_write, load_binary}

-- A read that succeeds delivers as many bytes as it was asked for.
pub length-do_read :
    (m : Mem) (a n : ℕ) {bs : List ℕ} {m' : Mem} → do_read m a n ≡ done (bs, m') → length bs ≡ n
unfolding do_read
length-do_read m a n h =
    ground (arith, length-read_bytes m.cell a n, length-read_bytes m.cell (a % m.mem_size) n)

-- A stretch inside the array is read from the array.
pub do_read-inside :
    (m : Mem) (a n : ℕ)
    → a + n ≤ m.mem_size
    → m.mem_size < 2 ^ 64
    → do_read m a n ≡ done (read_bytes m.cell a n, m)
unfolding do_read
do_read-inside m a n h w = ground arith

pub do_write-inside :
    (m : Mem) (a : ℕ) (bs : List ℕ)
    → a + length bs ≤ m.mem_size
    → m.mem_size < 2 ^ 64
    → do_write m a bs ≡ done (written m a bs)
unfolding do_write
do_write-inside m a bs h w = ground arith

-- A write inside an array of less than 2 ^ 64 bytes succeeds, a read of the same stretch then delivers the bytes written, and
-- a read of a stretch beside it delivers the bytes from before the write.
pub do_read-do_write :
    (m : Mem) (a : ℕ) (bs : List ℕ)
    → a + length bs ≤ m.mem_size
    → m.mem_size < 2 ^ 64
    → (m' : Mem) × (do_write m a bs ≡ done m')
      × (do_read m' a (length bs) ≡ done (bs, m'))
      × ((c n : ℕ)
          → c + n ≤ m.mem_size
          → (c + n ≤ a) ⊎ (a + length bs ≤ c)
          → do_read m' c n ≡ done (read_bytes m.cell c n, m'))
do_read-do_write m a bs h w = (
  written m a bs,
  do_write-inside m a bs h w,
  do_read-inside (written m a bs) a (length bs) h w
      ∙ ap (λ xs. done (xs, written m a bs)) (read_bytes-write_bytes m.cell a bs),
  λ c n p q.
      do_read-inside (written m a bs) c n p w
      ∙ ap (λ xs. done (xs, written m a bs)) (read_bytes-write_bytes_apart m.cell a bs c n q),
)

length-take : (n : ℕ) (xs : List ℕ) → length (take n xs) ≡ min n (length xs)
length-take zero xs = omega arith
length-take (suc n) [] = omega arith
length-take (suc n) (x ∷ xs) = omega (arith, length-take n xs)

pub take-length : (xs : List ℕ) → take (length xs) xs ≡ xs
take-length [] = refl
take-length (x ∷ xs) = ap (λ ys. x ∷ ys) (take-length xs)

take-all : (n : ℕ) (xs : List ℕ) → length xs ≤ n → take n xs ≡ xs
take-all n [] h = take-none n
  where
    take-none : (n : ℕ) → take {A = ℕ} n [] ≡ []
    take-none zero = refl
    take-none (suc n) = refl
take-all zero (x ∷ xs) h = absurd (omega arith)
take-all (suc n) (x ∷ xs) h = ap (λ ys. x ∷ ys) (take-all n xs (omega arith))

-- The part of the file that is loaded.
load_binary-done :
    (m : Mem) (a : ℕ) (file : List ℕ)
    → (a ≡ 0) ⊎ (a + length file ≤ m.mem_size)
    → load_binary m a file ≡ done (record m { cell = write_bytes m.cell a (take m.mem_size file) })
unfolding load_binary
load_binary-done m a file h = elim (dec_lt m.mem_size (length file)) [
  | yes p ↦ let cut = length-take m.mem_size file in ground arith
  | no p ↦
      let all = take-all m.mem_size file (omega arith) in
      let same = take-length file in ground arith
]

-- Into an array of less than 2 ^ 64 bytes, a file is loaded at address 0, cut to the size of the array
-- when it is longer, and at any address behind which it fits. A read of that stretch then delivers the
-- bytes of the file, and a read beside it the bytes from before.
pub do_read-load_binary :
    (m : Mem) (a : ℕ) (file : List ℕ)
    → m.mem_size < 2 ^ 64
    → (a ≡ 0) ⊎ (a + length file ≤ m.mem_size)
    → (m' : Mem) × (load_binary m a file ≡ done m')
      × (do_read m' a (min m.mem_size (length file)) ≡ done (take m.mem_size file, m'))
      × ((c n : ℕ)
          → c + n ≤ m.mem_size
          → (c + n ≤ a) ⊎ (a + length file ≤ c)
          → do_read m' c n ≡ done (read_bytes m.cell c n, m'))
do_read-load_binary m a file small h = (
  d,
  load_binary-done m a file h,
  subst (λ n. do_read d a n ≡ done (bytes, d)) (length-take m.mem_size file)
      (do_read-inside d a (length bytes) (omega (arith, length-take m.mem_size file)) small
        ∙ ap (λ xs. done (xs, d)) (read_bytes-write_bytes m.cell a bytes)),
  λ c n p q.
      do_read-inside d c n p small
      ∙ ap (λ xs. done (xs, d))
          (read_bytes-write_bytes_apart m.cell a bytes c n
            (omega (arith, length-take m.mem_size file, q))),
)
  where
    bytes : List ℕ
    bytes = take m.mem_size file

    d : Mem
    d = record m { cell = write_bytes m.cell a bytes }

-- Loading a non-empty file that does not fit behind a start address other than 0 writes past the end
-- of the array.
pub load_binary-overruns :
    (m : Mem) (a : ℕ) (file : List ℕ)
    → 0 < a
    → 0 < m.mem_size
    → 0 < length file
    → m.mem_size < a + length file
    → load_binary m a file ≡ fault
unfolding load_binary
load_binary-overruns m a file p q r s =
    ground (arith, length-take m.mem_size file, length-take (length file) file)

-- Without wrapping accesses, a call succeeds exactly inside the array.
pub do_read-cases :
    (m : Mem) (a n : ℕ)
    → m.allow_warp ≡ false
    → a + n < 2 ^ 64
    → do_read m a n ≡ (if leb (a + n) m.mem_size then done (read_bytes m.cell a n, m) else refused)
unfolding do_read
do_read-cases m a n w h = ground arith

pub do_write-cases :
    (m : Mem) (a : ℕ) (bs : List ℕ)
    → m.allow_warp ≡ false
    → a + length bs < 2 ^ 64
    → do_write m a bs ≡ (if leb (a + length bs) m.mem_size then done (written m a bs) else refused)
unfolding do_write
do_write-cases m a bs w h = ground arith

-- The memory as a device of the bus.
instance abbrev pub mem_dev : MmioDev Mem
mem_dev = record { do_read = do_read; do_write = do_write; length-do_read = length-do_read }
