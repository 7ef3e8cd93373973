-- ===== src/Sv39/Lookup.antt =====
-- Lookups in the TLB of difftest/src/rv_sv39.hpp, where one entry at most translates an address.
use hdu_cpu_lab.Common.{
  ℕ, zero, suc, ◌+◌, ◌≡◌, ◌≢◌, refl, ◌⊎◌, inl, inr, Bool, true, false, some, List, [], ◌∷◌, arith,
  ap, ◌∙◌, Bool-cases, get_elem?,
}
use mathlib.Core.Option.{some_inj}
use hdu_cpu_lab.Sv39.Tlb.{TlbEntry, translates, Hit, miss, hit, scan}

not_true : (b : Bool) → b ≢ true → b ≡ false
not_true true n = absurd (n refl)
not_true false n = refl

module _ (asid va : ℕ) where
  -- No entry of the list translates the address.
  abbrev pub NoneOf : List TlbEntry → Type 0
  NoneOf es = (k : ℕ) (e : TlbEntry) → get_elem? es k ≡ some e → translates asid va e ≢ true

  -- Entries that translate nothing leave what was found before.
  pub scan-none :
      (i : ℕ) (found : Hit) (es : List TlbEntry) → NoneOf es → scan asid va i found es ≡ found
  unfolding scan
  scan-none i found [] h = refl
  scan-none i found (e ∷ es) h =
      rw (not_true (translates asid va e) (h zero e refl))
        (scan-none (i + 1) found es (λ k f p. h (suc k) f p))

  -- The only entry that translates the address is found.
  pub scan-one :
      (i k : ℕ) (e : TlbEntry) (es : List TlbEntry)
      → get_elem? es k ≡ some e
      → translates asid va e ≡ true
      → ((j : ℕ) (f : TlbEntry) → get_elem? es j ≡ some f → translates asid va f ≡ true → j ≡ k)
      → scan asid va i miss es ≡ hit (i + k)
  unfolding scan
  scan-one i k e [] p t one = cc
  scan-one i zero e (x ∷ es) p t one = rw (ap (translates asid va) (some_inj.0 p) ∙ t) (
      scan-none (i + 1) (hit i) es (λ k f q u. absurd (omega (arith, one (suc k) f q u)))
      ∙ ap hit (omega arith))
  scan-one i (suc k) e (x ∷ es) p t one =
      let n : translates asid va x ≡ false =
        not_true (translates asid va x) (λ u. absurd (omega (arith, one zero x refl u))) in
      rw n (
        scan-one (i + 1) k e es p t (λ j f q u. omega (arith, one (suc j) f q u))
        ∙ ap hit (omega arith))

  cons-NoneOf :
      (e : TlbEntry) (es : List TlbEntry)
      → translates asid va e ≡ false
      → NoneOf es
      → NoneOf (e ∷ es)
  cons-NoneOf e es n h zero f p t =
      let q : translates asid va e ≡ true = ap (translates asid va) (some_inj.0 p) ∙ t in cc
  cons-NoneOf e es n h (suc k) f p t = h k f p t

  pub lookup-cases :
      (es : List TlbEntry)
      → NoneOf es
        ⊎ ((k : ℕ) × (e : TlbEntry) × (get_elem? es k ≡ some e) × (translates asid va e ≡ true))
  lookup-cases [] = inl (λ k e h. cc)
  lookup-cases (x ∷ es) = elim (Bool-cases (translates asid va x)) [
    | inl y ↦ inr (zero, x, refl, y)
    | inr n ↦ elim (lookup-cases es) [
      | inr (k, e, p, t) ↦ inr (suc k, e, p, t)
      | inl none_of ↦ inl (cons-NoneOf x es n none_of)
    ]
  ]
