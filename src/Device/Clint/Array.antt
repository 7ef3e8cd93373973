-- ===== src/Device/Clint/Array.antt =====
-- The arrays of words of difftest/src/rv_clint.hpp as memcpy sees them, byte by byte.
use hdu_cpu_lab.Common.{
  ℕ, zero, suc, ◌+◌, ◌*◌, ◌/◌, ◌%◌, ◌^◌, ◌≤◌, ◌<◌, ◌≡◌, ◌≢◌, refl, sym, ap, ◌∙◌, subst, ◌⊎◌, inl,
  inr, List, ◌∷◌, length, get_or, set, length-set, get_or-set_self, get_or-set_ne, list_ext, arith,
  dec_lt, ℕ_discrete,
}
use mathlib.Core.Path.{ap₂}
use native.Mathlib.Nat.{
  mul-suc, mul-le-mul_left, add-mul-div_left, add-mul-mod_self_left, div-div-eq-div-mul, pow-succ',
  mod-eq_of_lt, div-eq_of_lt,
}
use hdu_cpu_lab.Common.Bytes.{
  to_bytes, from_bytes, read_bytes, write_bytes, from_bytes-to_bytes, read_bytes-write_bytes,
  read_bytes-write_bytes_apart,
}
use hdu_cpu_lab.Device.Clint.{cells, words}

-- Bytes that are the digits of a number.
read_bytes_digits :
    (m : ℕ → ℕ) (base n x : ℕ)
    → ((i : ℕ) → i < n → m (base + i) ≡ x / 256 ^ i % 256)
    → read_bytes m base n ≡ to_bytes n x
unfolding read_bytes to_bytes
read_bytes_digits m base zero x h = refl
read_bytes_digits m base (suc n) x h =
    ap₂ ◌∷◌ (ap m (omega arith) ∙ h zero (omega arith) ∙ ap (λ q. q % 256) (omega arith)) (
      read_bytes_digits m (base + 1) n (x / 256) (λ i p.
        ap m (omega arith)
        ∙ h (suc i) (omega arith)
        ∙ sym (
            ap (λ q. q % 256)
              (div-div-eq-div-mul x 256 (256 ^ i) ∙ ap (λ q. x / q) (sym (pow-succ' 256 i))))))

length-words : (w : ℕ) (m : ℕ → ℕ) (base n : ℕ) → length (words w m base n) ≡ n
unfolding words
length-words w m base zero = refl
length-words w m base (suc n) = ap suc (length-words w m (base + w) n)

get_or-words :
    (w : ℕ) (m : ℕ → ℕ) (base n k : ℕ)
    → k < n
    → get_or (words w m base n) k 0 ≡ from_bytes (read_bytes m (base + w * k) w)
unfolding words
get_or-words w m base zero k h = absurd (omega arith)
get_or-words w m base (suc n) zero h = ap (λ b. from_bytes (read_bytes m b w)) (omega arith)
get_or-words w m base (suc n) (suc k) h =
    get_or-words w m (base + w) n k (omega arith)
    ∙ ap (λ b. from_bytes (read_bytes m b w)) (omega (arith, mul-suc w k))

module _ (w : ℕ) (positive : 0 < w) (xs : List ℕ) (k : ℕ) where
  pub read_bytes-cells : read_bytes (cells w xs) (w * k) w ≡ to_bytes w (get_or xs k 0)
  read_bytes-cells = read_bytes_digits (cells w xs) (w * k) w (get_or xs k 0) (λ i p.
      let word : (w * k + i) / w ≡ k =
        ap (λ q. q / w) (omega arith)
        ∙ add-mul-div_left i k positive
        ∙ ap (λ q. q + k) (div-eq_of_lt p)
        ∙ omega arith in
      let place : (w * k + i) % w ≡ i =
        ap (λ q. q % w) (omega arith) ∙ add-mul-mod_self_left i w k ∙ mod-eq_of_lt p in
      rw (word, place) refl)

-- What memcpy of one word does to the array: the word at its place changes and no other.
pub words-write :
    (w : ℕ) (xs : List ℕ) (h : ℕ) (bytes : List ℕ)
    → 0 < w
    → ((k : ℕ) → get_or xs k 0 < 256 ^ w)
    → h < length xs
    → length bytes ≡ w
    → words w (write_bytes (cells w xs) (w * h) bytes) 0 (length xs) ≡ set xs h (from_bytes bytes)
words-write w xs h bytes positive fits inside width =
    list_ext _ _ (length-words w m 0 (length xs) ∙ sym (length-set xs h (from_bytes bytes))) same
  where
    m : ℕ → ℕ
    m = write_bytes (cells w xs) (w * h) bytes

    self : read_bytes m (w * h) w ≡ bytes
    self =
        subst (λ n. read_bytes m (w * h) n ≡ bytes) width
          (read_bytes-write_bytes (cells w xs) (w * h) bytes)

    apart : (k : ℕ) → h ≢ k → (w * k + w ≤ w * h) ⊎ (w * h + length bytes ≤ w * k)
    apart k n = elim (dec_lt k h) [
      | yes p ↦ inl (omega (arith, mul-suc w k, mul-le-mul_left w p))
      | no p ↦
          let above : suc h ≤ k = omega arith in
          inr (omega (arith, mul-suc w h, mul-le-mul_left w above))
    ]

    other : (k : ℕ) → h ≢ k → from_bytes (read_bytes m (w * k) w) ≡ get_or xs k 0
    other k n =
        ap from_bytes (
          read_bytes-write_bytes_apart (cells w xs) (w * h) bytes (w * k) w (apart k n)
          ∙ read_bytes-cells w positive xs k)
        ∙ from_bytes-to_bytes w (get_or xs k 0) (fits k)

    same :
        (k : ℕ)
        → k < length (set xs h (from_bytes bytes))
        → get_or (words w m 0 (length xs)) k 0 ≡ get_or (set xs h (from_bytes bytes)) k 0
    same k p =
        get_or-words w m 0 (length xs) k (subst (λ n. k < n) (length-set xs h (from_bytes bytes)) p)
        ∙ elim (ℕ_discrete h k) [
          | yes e ↦
              subst
                (λ j.
                  from_bytes (read_bytes m (0 + w * j) w)
                  ≡ get_or (set xs h (from_bytes bytes)) j 0)
                e
                (ap (λ b. from_bytes (read_bytes m b w)) (omega arith)
                  ∙ ap from_bytes self
                  ∙ sym (get_or-set_self xs h (from_bytes bytes) 0 inside))
          | no n ↦
              ap (λ b. from_bytes (read_bytes m b w)) (omega arith)
              ∙ other k n
              ∙ sym (get_or-set_ne xs h k (from_bytes bytes) 0 n)
        ]
