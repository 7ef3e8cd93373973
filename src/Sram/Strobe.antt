-- ===== src/Sram/Strobe.antt =====
-- `strb_to_range` of difftest/src/nscscc_sram_slave.hpp: the ranges of a write strobe.
use hdu_cpu_lab.Common.{
  ℕ, zero, suc, ◌+◌, ◌-◌, ◌≤◌, ◌<◌, ◌≡◌, refl, ◌∙◌, sym, Bool, true, false, ◌&&◌, ◌||◌, List, [],
  ◌∷◌, ltb, leb, ◌==◌, ==_iff, subst, arith, Bool-cases, inl, inr,
}
use mathlib.Core.Bool.{false≢true}
use hdu_cpu_lab.Common.Words.{test_bit}
use hdu_cpu_lab.Sram.Slave.{run_end, ranges, strb_to_range}

-- The byte is in one of the ranges.
unfoldable pub in_ranges : ℕ → List (ℕ × ℕ) → Bool
in_ranges i [] = false
in_ranges i ((addr, len) ∷ rs) = (leb addr i && ltb i (addr + len)) || in_ranges i rs

-- The ranges are in order from `lo` on, not empty, within eight bytes, and no two of them touch.
abbrev pub Separated : ℕ → List (ℕ × ℕ) → Type 0
Separated lo [] = Unit
Separated lo ((addr, len) ∷ rs) =
    (lo ≤ addr) × (0 < len) × (addr + len ≤ 8) × Separated (addr + len + 1) rs

-- What the inner loop comes to: a run of set bits, and a clear bit or the end behind it.
record IsRun (wen l n r : ℕ) : Type 0 where
  from : l ≤ r
  upto : r ≤ l + n
  inside : (j : ℕ) → l ≤ j → j < r → test_bit wen j ≡ true
  behind : r < l + n → test_bit wen r ≡ false

run_end-IsRun : (wen n l : ℕ) → IsRun wen l n (run_end wen n l)
unfolding run_end
run_end-IsRun wen zero l = record {
  from = omega arith;
  upto = omega arith;
  inside = λ j p q. absurd (omega arith);
  behind = λ p. absurd (omega arith);
}
run_end-IsRun wen (suc n) l = elim (Bool-cases (test_bit wen l)) [
  | inl set ↦
      let h = run_end-IsRun wen n (l + 1) in
      rw set (record {
        from = omega (arith, h.from);
        upto = omega (arith, h.upto);
        inside = λ j p q. elim (Bool-cases (l == j)) [
          | inl same ↦ subst (λ k. test_bit wen k ≡ true) ((==_iff l j).0 same) set
          | inr other ↦ h.inside j (ground arith) q
        ];
        behind = λ p. h.behind (omega arith);
      })
  | inr clear ↦ rw clear (record {
    from = omega arith;
    upto = omega arith;
    inside = λ j p q. absurd (omega arith);
    behind = λ p. clear;
  })
]

-- No range reaches below the bound.
in_ranges_below : (lo i : ℕ) (rs : List (ℕ × ℕ)) → Separated lo rs → i < lo → in_ranges i rs ≡ false
unfolding in_ranges
in_ranges_below lo i [] h p = refl
in_ranges_below lo i ((addr, len) ∷ rs) (from, some, upto, rest) p =
    let below = in_ranges_below (addr + len + 1) i rs rest (omega arith) in ground arith

Separated-weaken : (lo hi : ℕ) (rs : List (ℕ × ℕ)) → lo ≤ hi → Separated hi rs → Separated lo rs
Separated-weaken lo hi [] p h = tt
Separated-weaken lo hi ((addr, len) ∷ rs) p (from, some, upto, rest) =
    (omega arith, some, upto, rest)

-- The ranges from `l` on hold exactly the set bits from there on.
abbrev IsCover : ℕ → ℕ → List (ℕ × ℕ) → Type 0
IsCover wen l rs = Separated l rs × ((i : ℕ) → l ≤ i → i < 8 → in_ranges i rs ≡ test_bit wen i)

range_first :
    (wen l r : ℕ) (rs : List (ℕ × ℕ))
    → l < 8
    → test_bit wen l ≡ true
    → IsRun wen l (8 - l) r
    → IsCover wen (r + 1) rs
    → IsCover wen l ((l, r - l) ∷ rs)
unfolding in_ranges
range_first wen l r rs p set run (apart, cover) = (
  (
    omega arith,
    some,
    omega (arith, run.upto, run.from),
    subst (λ k. Separated k rs) (omega (arith, run.from)) apart,
  ),
  λ i q w. elim (Bool-cases (ltb i r)) [
    | inl before ↦ let bit = run.inside i q (ground arith) in ground arith
    | inr after ↦ elim (Bool-cases (r == i)) [
      | inl same ↦
          let e = (==_iff r i).0 same in
          let clear = subst (λ k. test_bit wen k ≡ false) e (run.behind (omega arith)) in
          let below = in_ranges_below (r + 1) i rs apart (omega arith) in ground arith
      | inr other ↦ let rest = cover i (ground arith) w in ground arith
    ]
  ],
)
  where
    some : 0 < r - l
    some = elim (Bool-cases (l == r)) [
      | inl same ↦
          let e = (==_iff l r).0 same in
          let clear = run.behind (omega arith) in
          let here = subst (λ k. test_bit wen k ≡ true) e set in
          absurd (false≢true (sym clear ∙ here))
      | inr other ↦ let h = run.from in ground arith
    ]

range_skip :
    (wen l : ℕ) (rs : List (ℕ × ℕ))
    → test_bit wen l ≡ false
    → IsCover wen (l + 1) rs
    → IsCover wen l rs
range_skip wen l rs clear (apart, cover) = (
  Separated-weaken l (l + 1) rs (omega arith) apart,
  λ i q w. elim (Bool-cases (l == i)) [
    | inl same ↦
        in_ranges_below (l + 1) i rs apart (ground arith)
        ∙ sym (subst (λ k. test_bit wen k ≡ false) ((==_iff l i).0 same) clear)
    | inr other ↦ cover i (ground arith) w
  ],
)

ranges-IsCover : (wen fuel l : ℕ) → 8 ≤ l + fuel → IsCover wen l (ranges wen fuel l)
unfolding ranges
ranges-IsCover wen zero l h = (tt, λ i p q. absurd (omega arith))
ranges-IsCover wen (suc fuel) l h = elim (Bool-cases (ltb l 8)) [
  | inr past ↦ rw past (tt, λ i p q. absurd (ground arith))
  | inl within ↦ elim (Bool-cases (test_bit wen l)) [
    | inr clear ↦
        rw (within, clear)
          (range_skip wen l _ clear (ranges-IsCover wen fuel (l + 1) (omega arith)))
    | inl set ↦
        let run = run_end-IsRun wen (8 - l) l in
        rw (within, set)
          (range_first wen l (run_end wen (8 - l) l) _ (ground arith) set run
            (ranges-IsCover wen fuel (run_end wen (8 - l) l + 1) (omega (arith, run.from))))
  ]
]

-- The ranges of a strobe are in order within eight bytes, not empty, and a byte apart or more; together
-- they hold exactly the bytes whose bit is set.
pub strb_to_range-Separated :
    (wen : ℕ)
    → Separated 0 (strb_to_range wen)
      × ((i : ℕ) → i < 8 → in_ranges i (strb_to_range wen) ≡ test_bit wen i)
unfolding strb_to_range
strb_to_range-Separated wen =
    let (apart, cover) = ranges-IsCover wen 8 0 (omega arith) in
    (apart, λ i h. cover i (omega arith) h)
