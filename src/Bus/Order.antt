-- ===== src/Bus/Order.antt =====
-- Tables of ranges that are in order and aligned to their size, for difftest/src/rv_systembus.hpp.
use hdu_cpu_lab.Common.{
  ℕ, ◌-◌, ◌%◌, ◌^◌, ◌≤◌, ◌<◌, ◌≡◌, ◌⊎◌, inl, inr, true, false, none, some, List, [], ◌∷◌, arith,
  ◌∙◌, sym, Bool-cases, subst,
}
use mathlib.Core.Option.{some_inj}
use hdu_cpu_lab.Bus.Table.{Entry, key_le, upper_bound, before_upper}

abbrev pub All : (Entry → Type 0) → List Entry → Type 0
All P [] = Unit
All P (e ∷ es) = P e × All P es

abbrev pub In : Entry → List Entry → Type 0
In e [] = ⊥
In e (f ∷ fs) = (e ≡ f) ⊎ In e fs

-- A range of the table: not empty, below 2 ^ 64, and aligned to its size.
abbrev pub IsRange : Entry → Type 0
IsRange e = (e.base < e.limit) × (e.limit < 2 ^ 64) × (e.base % (e.limit - e.base) ≡ 0)

-- Every range begins where the one before it ended, or later, and none before `lo`.
abbrev pub OrderedFrom : ℕ → List Entry → Type 0
OrderedFrom lo [] = Unit
OrderedFrom lo (e ∷ es) = (lo ≤ e.base) × IsRange e × OrderedFrom e.limit es

abbrev pub Ordered : List Entry → Type 0
Ordered = OrderedFrom 0

abbrev pub Apart : Entry → Entry → Type 0
Apart e f = (e.limit ≤ f.base) ⊎ (f.limit ≤ e.base)

pub OrderedFrom-weaken :
    (lo hi : ℕ) (ds : List Entry) → lo ≤ hi → OrderedFrom hi ds → OrderedFrom lo ds
OrderedFrom-weaken lo hi [] h o = tt
OrderedFrom-weaken lo hi (e ∷ es) h o = (omega arith, o.1, o.2)

-- One step of each search.
pub upper_bound-cases :
    (k l : ℕ) (d : Entry) (ds : List Entry)
    → (key_le d k l ≡ true) × (upper_bound k l (d ∷ ds) ≡ upper_bound k l ds)
      ⊎ (key_le d k l ≡ false) × (upper_bound k l (d ∷ ds) ≡ some d)
unfolding upper_bound
upper_bound-cases k l d ds = elim (Bool-cases (key_le d k l)) [
  | inl p ↦ inl (p, rw p)
  | inr p ↦ inr (p, rw p)
]

pub before_upper-cases :
    (k l : ℕ) (d : Entry) (ds : List Entry) {f : Entry}
    → before_upper k l (d ∷ ds) ≡ some f
    → (d.base ≤ k) × (d ≡ f) × (before_upper k l ds ≡ none)
      ⊎ (d.base ≤ k) × (before_upper k l ds ≡ some f)
unfolding before_upper
before_upper-cases k l d ds e = ground arith

pub before_upper-none :
    (k l : ℕ) (d : Entry) (ds : List Entry)
    → key_le d k l ≡ true
    → before_upper k l ds ≡ none
    → before_upper k l (d ∷ ds) ≡ some d
unfolding before_upper
before_upper-none k l d ds p q = rw (p, q)

pub before_upper-some :
    (k l : ℕ) (d : Entry) (ds : List Entry) {f : Entry}
    → key_le d k l ≡ true
    → before_upper k l ds ≡ some f
    → before_upper k l (d ∷ ds) ≡ some f
unfolding before_upper
before_upper-some k l d ds p q = rw (p, q)

pub All-upper_bound :
    (P : Entry → Type 0) (k l : ℕ) (ds : List Entry) {f : Entry}
    → upper_bound k l ds ≡ some f
    → All P ds
    → P f
unfolding upper_bound
All-upper_bound P k l [] e a = cc
All-upper_bound P k l (d ∷ ds) e a = elim (upper_bound-cases k l d ds) [
  | inl (p, q) ↦ All-upper_bound P k l ds (sym q ∙ e) a.1
  | inr (p, q) ↦ subst P (some_inj.0 (sym q ∙ e)) a.0
]

pub All-before_upper :
    (P : Entry → Type 0) (k l : ℕ) (ds : List Entry) {f : Entry}
    → before_upper k l ds ≡ some f
    → All P ds
    → P f
unfolding before_upper
All-before_upper P k l [] e a = cc
All-before_upper P k l (d ∷ ds) e a = elim (before_upper-cases k l d ds e) [
  | inl (p, q, r) ↦ subst P q a.0
  | inr (p, q) ↦ All-before_upper P k l ds q a.1
]

-- The entry before the place of a key begins at or before that key, and not before `lo`.
pub before_upper-bounds :
    (lo k l : ℕ) (ds : List Entry) {f : Entry}
    → OrderedFrom lo ds
    → before_upper k l ds ≡ some f
    → (lo ≤ f.base) × (f.base ≤ k)
unfolding before_upper
before_upper-bounds lo k l [] o e = cc
before_upper-bounds lo k l (d ∷ ds) {f} o e = elim (before_upper-cases k l d ds e) [
  | inl (p, q, r) ↦ ground arith
  | inr (p, q) ↦ ground (arith, before_upper-bounds d.limit k l ds o.2 q)
]
