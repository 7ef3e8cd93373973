-- ===== src/Core/Alu/Division.antt =====
-- DIV and REM of difftest/src/rv_core.hpp.
use hdu_cpu_lab.Common.{
  ℕ, ◌+◌, ◌*◌, ◌/◌, ◌%◌, ◌^◌, ◌≤◌, ◌<◌, ◌≡◌, ◌≢◌, refl, sym, ap, subst, ◌∙◌, ◌⊎◌, inl, inr, true,
  false, ◌&&◌, if◌then◌else◌, ltb, ◌==◌, Bool-cases, arith, some,
}
use native.Mathlib.Nat.{div-add-mod, mod-lt, div-le_self}
use hdu_cpu_lab.Common.Int.{ℤ, pos, pos_part, neg_part, sub_ℕ, ◌+ℤ◌, ◌*ℤ◌, signed64}
use hdu_cpu_lab.Core.Alu.{
  alu_div, alu_rem, alu_exec, alu_switch, quotient, remainder, magnitude, negate, int_min,
  minus_one,
}

-- The integer -n.
abbrev neg : ℕ → ℤ
neg n = sub_ℕ 0 n

-- A pattern stands for its magnitude or for the negation of it.
signed64-magnitude :
    (a : ℕ)
    → a < 2 ^ 64
    → signed64 a ≡ (if ltb a (2 ^ 63) then pos (magnitude a) else neg (magnitude a))
signed64-magnitude a h = ground arith

signed64-small : (n : ℕ) → n < 2 ^ 63 → signed64 n ≡ pos n
signed64-small n h = ground arith

signed64-negate : (n : ℕ) → n ≤ 2 ^ 63 → signed64 (negate n) ≡ neg n
signed64-negate n h = ground arith

pos_pos : (q b r : ℕ) → pos q *ℤ pos b +ℤ pos r ≡ pos (b * q + r)
unfolding ◌*ℤ◌ ◌+ℤ◌
pos_pos q b r = ground arith

pos_neg : (q b r : ℕ) → pos q *ℤ neg b +ℤ neg r ≡ neg (b * q + r)
unfolding ◌*ℤ◌ ◌+ℤ◌
pos_neg q b r = ground arith

neg_pos : (q b r : ℕ) → neg q *ℤ pos b +ℤ neg r ≡ neg (b * q + r)
unfolding ◌*ℤ◌ ◌+ℤ◌
neg_pos q b r = ground arith

neg-neg : (q b r : ℕ) → neg q *ℤ neg b +ℤ pos r ≡ pos (b * q + r)
unfolding ◌*ℤ◌ ◌+ℤ◌
neg-neg q b r = ground arith

-- The distance of an integer from 0.
abbrev pub abs : ℤ → ℕ
abs z = pos_part z + neg_part z

pos_part-neg : (n : ℕ) → pos_part (neg n) ≡ 0
pos_part-neg n = ground arith

abs-neg : (n : ℕ) → abs (neg n) ≡ n
abs-neg n = ground arith

abs-neg_right : {m n : ℕ} → m < n → abs (pos m) < abs (neg n)
abs-neg_right {m} {n} h = omega (arith, abs-neg n)

abs-neg_left : {m n : ℕ} → m < n → abs (neg m) < abs (pos n)
abs-neg_left {m} {n} h = omega (arith, abs-neg m)

abs-neg_both : {m n : ℕ} → m < n → abs (neg m) < abs (neg n)
abs-neg_both {m} {n} h = omega (arith, abs-neg m, abs-neg n)

-- What DIV and REM come to, as integers.
pub data Divides (a b : ℕ) : Type 0 where
  by_zero :
      b ≡ 0
      → alu_exec a b alu_div false ≡ some minus_one
      → alu_exec a b alu_rem false ≡ some a
      → Divides a b
  overflows :
      a ≡ int_min
      → b ≡ minus_one
      → alu_exec a b alu_div false ≡ some int_min
      → alu_exec a b alu_rem false ≡ some 0
      → Divides a b
  divides :
      (q r : ℕ)
      → b ≢ 0
      → alu_exec a b alu_div false ≡ some q
      → alu_exec a b alu_rem false ≡ some r
      → signed64 q *ℤ signed64 b +ℤ signed64 r ≡ signed64 a
      → abs (signed64 r) < abs (signed64 b)
      → ((a < 2 ^ 63) × (neg_part (signed64 r) ≡ 0)) ⊎ ((2 ^ 63 ≤ a) × (pos_part (signed64 r) ≡ 0))
      → Divides a b

module _ (a b : ℕ) (wide_a : a < 2 ^ 64) (wide_b : b < 2 ^ 64) (nonzero : b ≢ 0)
    (fits : (a == int_min && b == minus_one) ≡ false) where
  q-eq : alu_exec a b alu_div false ≡ some (quotient a b)
  unfolding alu_exec alu_switch
  q-eq = let z : (b == 0) ≡ false = ground arith in rw (z, fits)

  r-eq : alu_exec a b alu_rem false ≡ some (remainder a b)
  unfolding alu_exec alu_switch
  r-eq = let z : (b == 0) ≡ false = ground arith in rw (z, fits)

  abbrev big_q : ℕ
  big_q = magnitude a / magnitude b

  abbrev big_r : ℕ
  big_r = magnitude a % magnitude b

  whole : magnitude b * big_q + big_r ≡ magnitude a
  whole = div-add-mod (magnitude a) (magnitude b)

  small_r : big_r < magnitude b
  small_r = mod-lt (magnitude a) (ground arith)

  small_q : big_q ≤ magnitude a
  small_q = div-le_self (magnitude a) (magnitude b)

  -- From the integers that the patterns stand for.
  by_signs :
      (q r : ℕ) (x y z w : ℤ)
      → quotient a b ≡ q
      → remainder a b ≡ r
      → signed64 q ≡ x
      → signed64 b ≡ y
      → signed64 r ≡ z
      → signed64 a ≡ w
      → x *ℤ y +ℤ z ≡ w
      → abs z < abs y
      → ((a < 2 ^ 63) × (neg_part z ≡ 0)) ⊎ ((2 ^ 63 ≤ a) × (pos_part z ≡ 0))
      → Divides a b
  by_signs q r x y z w e f sq sb sr sa product smaller side =
      divides q r nonzero (q-eq ∙ ap (λ n. some n) e) (r-eq ∙ ap (λ n. some n) f)
        ((λ i. sq i *ℤ sb i +ℤ sr i) ∙ product ∙ sym sa)
        (subst (λ t. abs t < abs (signed64 b)) (sym sr)
          (subst (λ t. abs z < abs t) (sym sb) smaller))
        (subst (λ t. ((a < 2 ^ 63) × (neg_part t ≡ 0)) ⊎ ((2 ^ 63 ≤ a) × (pos_part t ≡ 0))) (sym sr)
          side)

  r-lt : big_r < 2 ^ 63
  r-lt = let m : magnitude b ≤ 2 ^ 63 = ground arith in let s = small_r in omega arith

  q-le : big_q ≤ 2 ^ 63
  q-le = let m : magnitude a ≤ 2 ^ 63 = ground arith in let s = small_q in omega arith

  pos_a : ltb a (2 ^ 63) ≡ true → signed64 a ≡ pos (magnitude a)
  pos_a p = rw p

  neg_a : ltb a (2 ^ 63) ≡ false → signed64 a ≡ neg (magnitude a)
  neg_a p = signed64-magnitude a wide_a ∙ rw p

  pos_b : ltb b (2 ^ 63) ≡ true → signed64 b ≡ pos (magnitude b)
  pos_b p = rw p

  neg_b : ltb b (2 ^ 63) ≡ false → signed64 b ≡ neg (magnitude b)
  neg_b p = signed64-magnitude b wide_b ∙ rw p

  -- The one quotient of negative operands that does not fit is that of the overflow.
  q-lt_neg : ltb a (2 ^ 63) ≡ false → ltb b (2 ^ 63) ≡ false → big_q < 2 ^ 63
  q-lt_neg p q = elim (Bool-cases (a == int_min)) [
    | inr n ↦ let m : magnitude a < 2 ^ 63 = ground arith in let s = small_q in omega arith
    | inl y ↦
        let m : magnitude a ≡ 2 ^ 63 = ground arith in
        let two : 2 ≤ magnitude b = ground arith in twice (magnitude b) big_q big_r two (whole ∙ m)
  ]
    where
      twice : (b q r : ℕ) → 2 ≤ b → b * q + r ≡ 2 ^ 63 → q < 2 ^ 63
      twice b q r h e = grind arith

  pos_by_pos : ltb a (2 ^ 63) ≡ true → ltb b (2 ^ 63) ≡ true → Divides a b
  unfolding quotient remainder
  pos_by_pos p q =
      let m : magnitude a < 2 ^ 63 = ground arith in
      by_signs big_q big_r (pos big_q) (pos (magnitude b)) (pos big_r) (pos (magnitude a))
        (rw (p, q)) (rw p) (signed64-small big_q (omega (arith, small_q))) (pos_b q)
        (signed64-small big_r r-lt) (pos_a p) (pos_pos big_q (magnitude b) big_r ∙ ap pos whole)
        (omega (arith, small_r)) (inl (ground arith, refl))

  pos_by_neg : ltb a (2 ^ 63) ≡ true → ltb b (2 ^ 63) ≡ false → Divides a b
  unfolding quotient remainder
  pos_by_neg p q =
      by_signs (negate big_q) big_r (neg big_q) (neg (magnitude b)) (pos big_r) (pos (magnitude a))
        (rw (p, q)) (rw p) (signed64-negate big_q q-le) (neg_b q) (signed64-small big_r r-lt)
        (pos_a p) (neg-neg big_q (magnitude b) big_r ∙ ap pos whole) (abs-neg_right small_r)
        (inl (ground arith, refl))

  neg_by_pos : ltb a (2 ^ 63) ≡ false → ltb b (2 ^ 63) ≡ true → Divides a b
  unfolding quotient remainder
  neg_by_pos p q =
      by_signs (negate big_q) (negate big_r) (neg big_q) (pos (magnitude b)) (neg big_r)
        (neg (magnitude a)) (rw (p, q)) (rw p) (signed64-negate big_q q-le) (pos_b q)
        (signed64-negate big_r (omega (arith, r-lt))) (neg_a p)
        (neg_pos big_q (magnitude b) big_r ∙ ap neg whole) (abs-neg_left small_r)
        (inr (ground arith, pos_part-neg big_r))

  neg_by_neg : ltb a (2 ^ 63) ≡ false → ltb b (2 ^ 63) ≡ false → Divides a b
  unfolding quotient remainder
  neg_by_neg p q =
      by_signs big_q (negate big_r) (pos big_q) (neg (magnitude b)) (neg big_r) (neg (magnitude a))
        (rw (p, q)) (rw p) (signed64-small big_q (q-lt_neg p q)) (neg_b q)
        (signed64-negate big_r (omega (arith, r-lt))) (neg_a p)
        (pos_neg big_q (magnitude b) big_r ∙ ap neg whole) (abs-neg_both small_r)
        (inr (ground arith, pos_part-neg big_r))

-- DIV by 0 gives all ones and REM the dividend; the quotient of the least integer and -1 wraps round
-- to the least integer, with the remainder 0; on all other operands the quotient times the divisor
-- and the remainder add up to the dividend, as integers, the remainder is nearer to 0 than the
-- divisor, and it has the sign of the dividend or is 0.
pub div-Divides : (a b : ℕ) → a < 2 ^ 64 → b < 2 ^ 64 → Divides a b
unfolding alu_exec alu_switch
div-Divides a b wide_a wide_b = elim (Bool-cases (b == 0)) [
  | inl z ↦ by_zero (ground arith) (rw z) (rw z)
  | inr n ↦ elim (Bool-cases (a == int_min && b == minus_one)) [
    | inl o ↦ overflows (ground arith) (ground arith) (rw (n, o)) (rw (n, o))
    | inr f ↦
        let nonzero : b ≢ 0 = λ (z : b ≡ 0). ground arith in
        elim (Bool-cases (ltb a (2 ^ 63))) [
          | inl p ↦ elim (Bool-cases (ltb b (2 ^ 63))) [
            | inl q ↦ pos_by_pos a b wide_a wide_b nonzero f p q
            | inr q ↦ pos_by_neg a b wide_a wide_b nonzero f p q
          ]
          | inr p ↦ elim (Bool-cases (ltb b (2 ^ 63))) [
            | inl q ↦ neg_by_pos a b wide_a wide_b nonzero f p q
            | inr q ↦ neg_by_neg a b wide_a wide_b nonzero f p q
          ]
        ]
  ]
]
