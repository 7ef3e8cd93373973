-- ===== src/Device/Plic/Claim.antt =====
-- The choice of an interrupt source in difftest/src/rv_plic.hpp.
use hdu_cpu_lab.Common.{
  ℕ, zero, suc, ◌+◌, ◌≤◌, ◌<◌, ◌≡◌, refl, ◌⊎◌, inl, inr, Bool, true, false, ◌&&◌, arith, ltb,
  get_or, Bool-cases, set, subst, sym, ◌==◌, ==_iff,
}
use hdu_cpu_lab.Device.{done}
use hdu_cpu_lab.Device.Plic.{Plic, eligible, best_source, get_int}

-- No eligible source from `i` on, of `left` in all, has a priority above `top`.
abbrev pub NoneAbove : Plic → ℕ → ℕ → ℕ → ℕ → Type 0
NoneAbove p context_id i left top =
    (j : ℕ) → i ≤ j → j < i + left → eligible p context_id j ≡ true → get_or p.priority j 0 ≤ top

-- What the loop returns: the source from before, or an eligible one of the highest priority.
abbrev pub Best : Plic → ℕ → ℕ → ℕ → ℕ → ℕ → ℕ → Type 0
Best p context_id left i max_priority max_priority_int r =
    ((r ≡ max_priority_int) × NoneAbove p context_id i left max_priority)
    ⊎ ((i ≤ r)
        × (r < i + left)
        × (eligible p context_id r ≡ true)
        × (max_priority < get_or p.priority r 0)
        × NoneAbove p context_id i left (get_or p.priority r 0))

NoneAbove-step :
    (p : Plic) (context_id i left top : ℕ)
    → (eligible p context_id i ≡ true → get_or p.priority i 0 ≤ top)
    → NoneAbove p context_id (i + 1) left top
    → NoneAbove p context_id i (suc left) top
NoneAbove-step p context_id i left top here rest j lo hi e = elim (Bool-cases (i == j)) [
  | inl same ↦
      let q = (==_iff i j).0 same in
      subst (λ k. get_or p.priority k 0 ≤ top) q
        (here (subst (λ k. eligible p context_id k ≡ true) (sym q) e))
  | inr other ↦ rest j (ground arith) (omega arith) e
]

not_ltb : (a b : ℕ) → ltb a b ≡ false → b ≤ a
not_ltb a b h = ground arith

ltb→lt : (a b : ℕ) → ltb a b ≡ true → a < b
ltb→lt a b h = ground arith

and_true : (x y : Bool) → x && y ≡ true → (x ≡ true) × (y ≡ true)
and_true true true h = (refl, refl)
and_true true false h = cc
and_true false y h = cc

and_false : (x y : Bool) → x && y ≡ false → x ≡ true → y ≡ false
and_false true y h e = h
and_false false y h e = cc

-- One round of the loop that takes source `i`, and one that does not.
taken-Best :
    (p : Plic) (context_id left i mp mi r : ℕ)
    → eligible p context_id i && ltb mp (get_or p.priority i 0) ≡ true
    → Best p context_id left (i + 1) (get_or p.priority i 0) i r
    → Best p context_id (suc left) i mp mi r
taken-Best p context_id left i mp mi r h (inl (e, n)) =
    let (ok, lt) = and_true (eligible p context_id i) (ltb mp (get_or p.priority i 0)) h in
    let above : mp < get_or p.priority i 0 = ltb→lt _ _ lt in
    subst (λ r. Best p context_id (suc left) i mp mi r) (sym e)
      (inr (
        omega arith,
        omega arith,
        ok,
        above,
        NoneAbove-step p context_id i left (get_or p.priority i 0) (λ _. omega arith) n,
      ))
taken-Best p context_id left i mp mi r h (inr (lo, hi, e, up, n)) =
    let (ok, lt) = and_true (eligible p context_id i) (ltb mp (get_or p.priority i 0)) h in
    let above : mp < get_or p.priority i 0 = ltb→lt _ _ lt in
    inr (
      omega arith,
      omega arith,
      e,
      omega arith,
      NoneAbove-step p context_id i left (get_or p.priority r 0) (λ _. omega arith) n,
    )

left-Best :
    (p : Plic) (context_id left i mp mi r : ℕ)
    → eligible p context_id i && ltb mp (get_or p.priority i 0) ≡ false
    → Best p context_id left (i + 1) mp mi r
    → Best p context_id (suc left) i mp mi r
left-Best p context_id left i mp mi r h b = elim b [
  | inl (e, n) ↦ inl (e, NoneAbove-step p context_id i left mp below n)
  | inr (lo, hi, e, up, n) ↦ inr (
    omega arith,
    omega arith,
    e,
    up,
    NoneAbove-step p context_id i left (get_or p.priority r 0) (λ k. let z = below k in omega arith)
        n,
  )
]
  where
    below : eligible p context_id i ≡ true → get_or p.priority i 0 ≤ mp
    below k = not_ltb _ _ (and_false (eligible p context_id i) (ltb mp (get_or p.priority i 0)) h k)

best_source-Best :
    (p : Plic) (context_id left i max_priority max_priority_int : ℕ)
    → Best p context_id left i max_priority max_priority_int
        (best_source p context_id left i max_priority max_priority_int)
unfolding best_source
best_source-Best p context_id zero i mp mi = inl (refl, λ j lo hi e. absurd (omega arith))
best_source-Best p context_id (suc left) i mp mi =
    elim (Bool-cases (eligible p context_id i && ltb mp (get_or p.priority i 0))) [
      | inl better ↦ rw better (
          taken-Best p context_id left i mp mi _ better
            (best_source-Best p context_id left (i + 1) (get_or p.priority i 0) i))
      | inr worse ↦ rw worse (
          left-Best p context_id left i mp mi _ worse
            (best_source-Best p context_id left (i + 1) mp mi))
    ]

-- The call comes back for a context of the PLIC. It records as the claim 0, for none, and reports no
-- interrupt, where no eligible source has a positive priority; otherwise it records an eligible source
-- than which no eligible source has a higher priority, and reports an interrupt.
pub get_int-Best :
    (p : Plic) (context_id : ℕ)
    → context_id < p.nr_context
    → (s : ℕ) × (get_int p context_id
        ≡ done (ltb 0 s, record p { claim = set p.claim context_id s }))
      × Best p context_id p.nr_source 1 0 0 s
unfolding get_int
get_int-Best p context_id h = (
  best_source p context_id p.nr_source 1 0 0,
  ground arith,
  best_source-Best p context_id p.nr_source 1 0 0,
)
