-- ===== src/Bus/Insert.antt =====
-- Insertion of a range into the table of difftest/src/rv_systembus.hpp.
use hdu_cpu_lab.Common.{
  ℕ, ◌≤◌, ◌<◌, ◌≡◌, ◌⊎◌, ◌↔◌, inl, inr, true, false, some, List, [], ◌∷◌, arith, Option-cases,
}
use hdu_cpu_lab.Bus.Table.{Entry, upper_bound, before_upper, insert, overlaps}
use hdu_cpu_lab.Bus.Order.{
  All, In, IsRange, OrderedFrom, Apart, upper_bound-cases, before_upper-none, before_upper-some,
  before_upper-bounds,
}

overlaps-Apart :
    (f e : Entry) → f.base < f.limit → e.base < e.limit → overlaps (some f) e ≡ false → Apart e f
unfolding overlaps
overlaps-Apart f e p q h = ground arith

pub overlaps-not-Apart : (f e : Entry) → overlaps (some f) e ≡ true → ¬ Apart e f
unfolding overlaps
overlaps-not-Apart f e h a = ground arith

-- All later entries are apart from an entry that ends before they begin.
pub All-Apart_before :
    (e : Entry) (lo : ℕ) (ds : List Entry) → e.limit ≤ lo → OrderedFrom lo ds → All (Apart e) ds
All-Apart_before e lo [] h o = tt
All-Apart_before e lo (d ∷ ds) h o = (omega arith, All-Apart_before e d.limit ds (omega arith) o.2)

-- An entry that overlaps neither neighbour of its place is apart from the whole table.
pub neighbours-Apart :
    (lo : ℕ) (e : Entry) (ds : List Entry)
    → OrderedFrom lo ds
    → e.base < e.limit
    → overlaps (upper_bound e.base e.limit ds) e ≡ false
    → overlaps (before_upper e.base e.limit ds) e ≡ false
    → All (Apart e) ds
neighbours-Apart lo e [] o r u v = tt
neighbours-Apart lo e (d ∷ ds) o r u v = elim (upper_bound-cases e.base e.limit d ds) [
  | inl (p, q) ↦ elim (Option-cases (before_upper e.base e.limit ds)) [
    | inl n ↦ (
      overlaps-Apart d e o.1.0 r (rw (before_upper-none e.base e.limit d ds p n) at v),
      neighbours-Apart d.limit e ds o.2 r (rw q at u) (unfold overlaps in rw n),
    )
    | inr (g, n) ↦ (
      inr (omega (arith, before_upper-bounds d.limit e.base e.limit ds o.2 n)),
      neighbours-Apart d.limit e ds o.2 r (rw q at u)
          (rw n (rw (before_upper-some e.base e.limit d ds p n) at v)),
    )
  ]
  | inr (p, q) ↦
      let before : e.limit ≤ d.base = ground (arith, overlaps-Apart d e o.1.0 r (rw q at u)) in
      (inl before, All-Apart_before e d.limit ds (omega arith) o.2)
]

insert-before :
    (e d : Entry) (ds : List Entry)
    → e.base < e.limit
    → e.limit ≤ d.base
    → insert e (d ∷ ds) ≡ e ∷ d ∷ ds
unfolding insert
insert-before e d ds p q = ground arith

insert-after :
    (e d : Entry) (ds : List Entry)
    → d.base < d.limit
    → d.limit ≤ e.base
    → insert e (d ∷ ds) ≡ d ∷ insert e ds
unfolding insert
insert-after e d ds p q = ground arith

-- An entry that is apart from the table keeps it in order, and is all that is added.
pub insert-Ordered :
    (lo : ℕ) (e : Entry) (ds : List Entry)
    → OrderedFrom lo ds
    → All (Apart e) ds
    → lo ≤ e.base
    → IsRange e
    → OrderedFrom lo (insert e ds)
unfolding insert
insert-Ordered lo e [] o a h r = (h, r, tt)
insert-Ordered lo e (d ∷ ds) o a h r = elim a.0 [
  | inl p ↦ rw (insert-before e d ds r.0 p) (h, r, (p, o.1, o.2))
  | inr p ↦ rw (insert-after e d ds o.1.0 p) (o.0, o.1, insert-Ordered d.limit e ds o.2 a.1 p r)
]

pub In-insert :
    (lo : ℕ) (e f : Entry) (ds : List Entry)
    → OrderedFrom lo ds
    → All (Apart e) ds
    → e.base < e.limit
    → In f (insert e ds) ↔ ((f ≡ e) ⊎ In f ds)
unfolding insert
In-insert lo e f [] o a r = (λ x. x, λ x. x)
In-insert lo e f (d ∷ ds) o a r = elim a.0 [
  | inl p ↦ rw (insert-before e d ds r p) (λ x. x, λ x. x)
  | inr p ↦ rw (insert-after e d ds o.1.0 p) (
      let ih = In-insert d.limit e f ds o.2 a.1 r in
      (
        elim [
          | inl x ↦ inr (inl x)
          | inr x ↦ elim (ih.0 x) [ inl y ↦ inl y | inr y ↦ inr (inr y) ]
        ],
        elim [
          | inl x ↦ inr (ih.1 (inl x))
          | inr x ↦ elim x [ inl y ↦ inl y | inr y ↦ inr (ih.1 (inr y)) ]
        ],
      ))
]
