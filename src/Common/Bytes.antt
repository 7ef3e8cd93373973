-- ===== src/Common/Bytes.antt =====
-- Byte sequences: little-endian words, and copies into and out of an array of bytes.
use hdu_cpu_lab.Common.Tests.{◌==◌, if◌then◌else◌}
use hdu_cpu_lab.Common.Lists.{length, get_or}
use Prim.Native.Nat.{ℕ, zero, suc, ◌+◌, ◌*◌, ◌/◌, ◌%◌, ◌^◌, ◌≤◌, ◌<◌}
use mathlib.Core.Path.{◌≡◌, refl, sym, ap, ap₂, ◌∙◌}
use mathlib.Core.Logic.{◌⊎◌}
use mathlib.Core.List.{List, [], ◌∷◌}
use native.Mathlib.Omega.{arith}
use native.Mathlib.Nat.{pow-suc}

-- The `n` low bytes of a number, lowest first, as they lie in memory.
unfoldable pub to_bytes : ℕ → ℕ → List ℕ
to_bytes zero x = []
to_bytes (suc n) x = x % 256 ∷ to_bytes n (x / 256)

unfoldable pub from_bytes : List ℕ → ℕ
from_bytes [] = 0
from_bytes (b ∷ bs) = b + 256 * from_bytes bs

-- memcpy out of an array, and into it.
unfoldable pub read_bytes : (ℕ → ℕ) → ℕ → ℕ → List ℕ
read_bytes m a zero = []
read_bytes m a (suc n) = m a ∷ read_bytes m (a + 1) n

abbrev pub update : (ℕ → ℕ) → ℕ → ℕ → ℕ → ℕ
update m a v b = if a == b then v else m b

unfoldable pub write_bytes : (ℕ → ℕ) → ℕ → List ℕ → ℕ → ℕ
write_bytes m a [] = m
write_bytes m a (b ∷ bs) = write_bytes (update m a b) (a + 1) bs

pub length-to_bytes : (n x : ℕ) → length (to_bytes n x) ≡ n
unfolding to_bytes
length-to_bytes zero x = refl
length-to_bytes (suc n) x = ap suc (length-to_bytes n (x / 256))

pub length-read_bytes : (m : ℕ → ℕ) (a n : ℕ) → length (read_bytes m a n) ≡ n
unfolding read_bytes
length-read_bytes m a zero = refl
length-read_bytes m a (suc n) = ap suc (length-read_bytes m (a + 1) n)

-- A word of `n` bytes survives the trip through memory.
pub from_bytes-to_bytes : (n x : ℕ) → x < 256 ^ n → from_bytes (to_bytes n x) ≡ x
unfolding to_bytes from_bytes
from_bytes-to_bytes zero x h = omega arith
from_bytes-to_bytes (suc n) x h =
    omega (arith, from_bytes-to_bytes n (x / 256) (omega (arith, pow-suc 256 n)))

-- A cell below the written stretch, or above it, keeps its value.
pub write_bytes_outside :
    (m : ℕ → ℕ) (a : ℕ) (bs : List ℕ) (c : ℕ)
    → (c < a) ⊎ (a + length bs ≤ c)
    → write_bytes m a bs c ≡ m c
unfolding write_bytes
write_bytes_outside m a [] c h = refl
write_bytes_outside m a (b ∷ bs) c h =
    write_bytes_outside (update m a b) (a + 1) bs c (omega arith) ∙ ground arith

-- A cell of the written stretch holds the byte written there.
pub write_bytes_inside :
    (m : ℕ → ℕ) (a : ℕ) (bs : List ℕ) (i : ℕ)
    → i < length bs
    → write_bytes m a bs (a + i) ≡ get_or bs i 0
unfolding write_bytes
write_bytes_inside m a [] i h = absurd (omega arith)
write_bytes_inside m a (b ∷ bs) zero h =
    write_bytes_outside (update m a b) (a + 1) bs (a + 0) (omega arith) ∙ ground arith
write_bytes_inside m a (b ∷ bs) (suc i) h =
    ap (write_bytes (update m a b) (a + 1) bs) (omega arith)
    ∙ write_bytes_inside (update m a b) (a + 1) bs i (omega arith)

-- Reading a stretch sees only the cells of that stretch.
pub read_bytes_ext :
    (m k : ℕ → ℕ) (a n : ℕ)
    → ((c : ℕ) → a ≤ c → c < a + n → m c ≡ k c)
    → read_bytes m a n ≡ read_bytes k a n
unfolding read_bytes
read_bytes_ext m k a zero h = refl
read_bytes_ext m k a (suc n) h =
    ap₂ ◌∷◌ (h a (omega arith) (omega arith))
      (read_bytes_ext m k (a + 1) n (λ c p q. h c (omega arith) (omega arith)))

-- What was written is read back.
pub read_bytes-write_bytes :
    (m : ℕ → ℕ) (a : ℕ) (bs : List ℕ) → read_bytes (write_bytes m a bs) a (length bs) ≡ bs
unfolding read_bytes write_bytes
read_bytes-write_bytes m a [] = refl
read_bytes-write_bytes m a (b ∷ bs) =
    ap₂ ◌∷◌ (write_bytes_outside (update m a b) (a + 1) bs a (omega arith) ∙ ground arith)
      (read_bytes-write_bytes (update m a b) (a + 1) bs)

-- A read beside the written stretch is unchanged.
pub read_bytes-write_bytes_apart :
    (m : ℕ → ℕ) (a : ℕ) (bs : List ℕ) (c n : ℕ)
    → (c + n ≤ a) ⊎ (a + length bs ≤ c)
    → read_bytes (write_bytes m a bs) c n ≡ read_bytes m c n
read_bytes-write_bytes_apart m a bs c n h =
    read_bytes_ext (write_bytes m a bs) m c n (λ d p q. write_bytes_outside m a bs d (omega arith))

pub get_or-read_bytes : (m : ℕ → ℕ) (a n i : ℕ) → i < n → get_or (read_bytes m a n) i 0 ≡ m (a + i)
unfolding read_bytes
get_or-read_bytes m a zero i h = absurd (omega arith)
get_or-read_bytes m a (suc n) zero h = ap m (omega arith)
get_or-read_bytes m a (suc n) (suc i) h =
    get_or-read_bytes m (a + 1) n i (omega arith) ∙ ap m (omega arith)

-- A list is the stretch that it agrees with byte by byte.
pub read_bytes_unique :
    (m : ℕ → ℕ) (a : ℕ) (bs : List ℕ)
    → ((i : ℕ) → i < length bs → get_or bs i 0 ≡ m (a + i))
    → read_bytes m a (length bs) ≡ bs
unfolding read_bytes
read_bytes_unique m a [] h = refl
read_bytes_unique m a (b ∷ bs) h =
    ap₂ ◌∷◌ (ap m (omega arith) ∙ sym (h 0 (omega arith)))
      (read_bytes_unique m (a + 1) bs (λ i p. h (suc i) (omega arith) ∙ ap m (omega arith)))
