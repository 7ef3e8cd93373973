-- ===== src/Common/Bits.antt =====
-- Masks as arithmetic: the source takes page numbers, offsets and interrupt bits by `&`.
use Prim.Native.Nat.{
  ℕ, zero, suc, ◌+◌, ◌-◌, ◌*◌, ◌/◌, ◌%◌, ◌^◌, ◌≤◌, ◌<◌, min, bit_and, digits, bit_and-bitwise,
}
use mathlib.Core.Path.{◌≡◌, refl, ap, sym, ◌∙◌}
use native.Mathlib.Omega.{arith}
use native.Mathlib.Nat.{
  pow-suc, pow-succ', one-le-pow, zero-add, mod-eq_of_lt, mod-lt, div-add-mod,
  add-mul-mod_self_left, div-div-eq-div-mul,
}

abbrev and_run : ℕ → ℕ → ℕ → ℕ
and_run = digits (λ _. 0) min

-- Any fuel that covers the first number computes the same digits.
and_run_enough : (m n a b : ℕ) → a ≤ m → a ≤ n → and_run m a b ≡ and_run n a b
and_run_enough zero zero a b p q = refl
and_run_enough zero (suc n) zero b p q = refl
and_run_enough zero (suc n) (suc a) b p q = absurd (omega arith)
and_run_enough (suc m) zero zero b p q = refl
and_run_enough (suc m) zero (suc a) b p q = absurd (omega arith)
and_run_enough (suc m) (suc n) zero b p q = refl
and_run_enough (suc m) (suc n) (suc a) b p q =
    ap (λ t. t * 2 + min (suc a % 2) (b % 2))
      (and_run_enough m n (suc a / 2) (b / 2) (omega arith) (omega arith))

zero-bit_and : (b : ℕ) → bit_and 0 b ≡ 0
zero-bit_and b = bit_and-bitwise 0 b

-- The lowest digit of `a & b`, and the rest.
pub bit_and_digit : (a b : ℕ) → bit_and a b ≡ bit_and (a / 2) (b / 2) * 2 + min (a % 2) (b % 2)
bit_and_digit zero b = omega (arith, zero-bit_and b, zero-bit_and (b / 2))
bit_and_digit (suc a) b = omega (
  arith,
  bit_and-bitwise (suc a) b,
  bit_and-bitwise (suc a / 2) (b / 2),
  and_run_enough a (suc a / 2) (suc a / 2) (b / 2) (omega arith) (omega arith),
)

bit_and-zero_below : (n a : ℕ) → a ≤ n → bit_and a 0 ≡ 0
bit_and-zero_below n zero h = refl
bit_and-zero_below zero (suc a) h = absurd (omega arith)
bit_and-zero_below (suc n) (suc a) h =
    omega (arith, bit_and_digit (suc a) 0, bit_and-zero_below n (suc a / 2) (omega arith))

pub bit_and-zero : (a : ℕ) → bit_and a 0 ≡ 0
bit_and-zero a = bit_and-zero_below a a (omega arith)

-- The remainder by `2 * p`, from that of the half.
mod-double : (a p : ℕ) → 0 < p → a % (p * 2) ≡ a / 2 % p * 2 + a % 2
mod-double a p h =
    ap (λ t. t % (p * 2)) whole
    ∙ add-mul-mod_self_left (a / 2 % p * 2 + a % 2) (p * 2) (a / 2 / p)
    ∙ mod-eq_of_lt (omega (arith, mod-lt (a / 2) h))
  where
    whole : a ≡ a / 2 % p * 2 + a % 2 + p * 2 * (a / 2 / p)
    whole = omega (arith, div-add-mod (a / 2) p)

-- `a & ((1 << k) - 1)` is the remainder by `2 ^ k`.
pub bit_and_low : (k a : ℕ) → bit_and a (2 ^ k - 1) ≡ a % 2 ^ k
bit_and_low zero a = rw (bit_and-zero a) (omega arith)
bit_and_low (suc k) a = omega (
  arith,
  pow-suc 2 k,
  one-le-pow k 2 (omega arith),
  bit_and_digit a (2 ^ suc k - 1),
  ap (bit_and (a / 2)) half,
  bit_and_low k (a / 2),
  ap (λ t. a % t) (pow-suc 2 k),
  mod-double a (2 ^ k) (one-le-pow k 2 (omega arith)),
)
  where
    half : (2 ^ suc k - 1) / 2 ≡ 2 ^ k - 1
    half = omega (arith, pow-suc 2 k, one-le-pow k 2 (omega arith))

-- `a & -(1 << k)` in a word of `k + n` bits clears the `k` low bits.
pub bit_and_high : (k n a : ℕ) → a < 2 ^ (k + n) → bit_and a (2 ^ (k + n) - 2 ^ k) ≡ a - a % 2 ^ k
bit_and_high zero n a h =
    rw (zero-add n, bit_and_low n a, mod-eq_of_lt (rw zero-add at h)) (omega arith)
bit_and_high (suc k) n a h = omega (
  arith,
  pow-suc 2 k,
  pow-suc 2 (k + n),
  bit_and_digit a (2 ^ (suc k + n) - 2 ^ suc k),
  ap (bit_and (a / 2)) half,
  bit_and_high k n (a / 2) (omega (arith, wide)),
  ap (λ t. a % t) (pow-suc 2 k),
  mod-double a (2 ^ k) (one-le-pow k 2 (omega arith)),
  wide,
)
  where
    wide : 2 ^ (suc k + n) ≡ 2 ^ (k + n) * 2
    wide = ap (λ t. 2 ^ t) (omega arith) ∙ pow-suc 2 (k + n)

    half : (2 ^ (suc k + n) - 2 ^ suc k) / 2 ≡ 2 ^ (k + n) - 2 ^ k
    half = omega (arith, pow-suc 2 k, wide)

div_two_pow : (i a : ℕ) → a / 2 ^ suc i ≡ a / 2 / 2 ^ i
div_two_pow i a = ap (λ t. a / t) (pow-succ' 2 i) ∙ sym (div-div-eq-div-mul a 2 (2 ^ i))

-- Bit `i` of `a & b` is set when it is set in both.
pub bit_and_bit : (i a b : ℕ) → bit_and a b / 2 ^ i % 2 ≡ min (a / 2 ^ i % 2) (b / 2 ^ i % 2)
bit_and_bit zero a b = omega (arith, bit_and_digit a b)
bit_and_bit (suc i) a b =
    rw (div_two_pow i (bit_and a b), div_two_pow i a, div_two_pow i b, half)
      (bit_and_bit i (a / 2) (b / 2))
  where
    half : bit_and a b / 2 ≡ bit_and (a / 2) (b / 2)
    half = omega (arith, bit_and_digit a b)

bit_and_twice_below : (n v m : ℕ) → v ≤ n → bit_and (bit_and v m) m ≡ bit_and v m
bit_and_twice_below zero v m h =
    let e : v ≡ 0 = omega arith in rw (e, zero-bit_and m) (zero-bit_and m)
bit_and_twice_below (suc n) v m h =
    bit_and_digit (bit_and v m) m
    ∙ ap (λ t. t * 2 + min (bit_and v m % 2) (m % 2))
        (ap (λ t. bit_and t (m / 2)) half ∙ bit_and_twice_below n (v / 2) (m / 2) (omega arith))
    ∙ omega (arith, bit_and_digit v m)
  where
    half : bit_and v m / 2 ≡ bit_and (v / 2) (m / 2)
    half = omega (arith, bit_and_digit v m)

pub bit_and_twice : (v m : ℕ) → bit_and (bit_and v m) m ≡ bit_and v m
bit_and_twice v m = bit_and_twice_below v v m (omega arith)
