-- ===== src/Priv/Interrupts.antt =====
-- Which interrupt `check_and_raise_int` of difftest/src/rv_priv.hpp takes.
use hdu_cpu_lab.Common.{
  ℕ, ◌-◌, ◌^◌, ◌≡◌, ◌⊎◌, inl, inr, refl, true, ◌&&◌, ltb, bit_and, arith, subst, sym, ap, ◌∙◌,
  Bool-cases,
}
use hdu_cpu_lab.Common.Bits.{bit_and_bit}
use hdu_cpu_lab.Common.Words.{test_bit}
use hdu_cpu_lab.Priv.Codes.{u_mode, exc_custom_ok, mie, bit}
use hdu_cpu_lab.Priv.Registers.{Csrs, int2index, pending_int}
use hdu_cpu_lab.Priv.Invariant.{IsSane}
use hdu_cpu_lab.Priv.Trap.{test_bit_zero}

int2index-test_bit : (m : ℕ) → ¬ (int2index m ≡ exc_custom_ok) → test_bit m (int2index m) ≡ true
unfolding int2index
int2index-test_bit m h = ground arith

test_bit-bit_and :
    (a b i : ℕ) → test_bit (bit_and a b) i ≡ true → (test_bit a i ≡ true) × (test_bit b i ≡ true)
test_bit-bit_and a b i h = let e = bit_and_bit i a b in ground arith

-- On well-formed registers an interrupt that is chosen is pending in mip and enabled in mie, and in
-- machine mode the enable bit of mstatus is set.
pub pending_int-test_bit :
    (c : Csrs)
    → IsSane c
    → ¬ (pending_int c ≡ exc_custom_ok)
    → (test_bit c.ip (pending_int c) ≡ true)
      × (test_bit c.ie (pending_int c) ≡ true)
      × ((c.cur_priv ≡ u_mode) ⊎ (bit c.status mie ≡ 1))
unfolding pending_int
pending_int-test_bit c h k = elim h.cur_mode [
  | inl u ↦
      let z = test_bit_zero (int2index bits) in
      let e : pending_int c ≡ int2index bits = ground arith in
      let (p, q) = both bits refl (λ x. k (e ∙ x)) in
      (
        subst (λ n. test_bit c.ip n ≡ true) (sym e) p,
        subst (λ n. test_bit c.ie n ≡ true) (sym e) q,
        inl u,
      )
  | inr m ↦ elim (Bool-cases (ltb 0 masked && ltb 0 (bit c.status mie))) [
    | inr off ↦ absurd (k (ground arith))
    | inl on ↦
        let e : pending_int c ≡ int2index masked = ground arith in
        let in_bits =
          (test_bit-bit_and bits (2 ^ 64 - 1 - c.mideleg) (int2index masked)
            (int2index-test_bit masked (λ x. k (e ∙ x)))).0 in
        let (p, q) = test_bit-bit_and c.ip c.ie (int2index masked) in_bits in
        (
          subst (λ n. test_bit c.ip n ≡ true) (sym e) p,
          subst (λ n. test_bit c.ie n ≡ true) (sym e) q,
          inr (ground arith),
        )
  ]
]
  where
    bits : ℕ
    bits = bit_and c.ip c.ie

    masked : ℕ
    masked = bit_and bits (2 ^ 64 - 1 - c.mideleg)

    both :
        (b : ℕ)
        → b ≡ bits
        → ¬ (int2index b ≡ exc_custom_ok)
        → (test_bit c.ip (int2index bits) ≡ true) × (test_bit c.ie (int2index bits) ≡ true)
    both b e n =
        test_bit-bit_and c.ip c.ie (int2index bits)
          (int2index-test_bit bits (λ x. n (ap int2index e ∙ x)))
