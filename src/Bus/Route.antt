-- ===== src/Bus/Route.antt =====
-- Which device an address leads to, and at which offset, difftest/src/rv_systembus.hpp.
use hdu_cpu_lab.Common.{
  ℕ, ◌+◌, ◌-◌, ◌*◌, ◌%◌, ◌/◌, ◌^◌, ◌≤◌, ◌<◌, ◌≡◌, ◌↔◌, inl, inr, false, none, some, List, [], ◌∷◌,
  arith, ◌∙◌, sym, ap, Option-cases,
}
use native.Mathlib.Nat.{add-mul-mod_self_left, mod-eq_of_lt, div-add-mod}
use hdu_cpu_lab.Common.Words.{u64, sub64}
use hdu_cpu_lab.Bus.{route, device_addr}
use hdu_cpu_lab.Bus.Table.{Entry, before_upper, max_key}
use hdu_cpu_lab.Bus.Order.{
  In, IsRange, OrderedFrom, Ordered, before_upper-cases, before_upper-none, before_upper-some,
  before_upper-bounds,
}

pub In-IsRange :
    (lo : ℕ) (e : Entry) (ds : List Entry) → OrderedFrom lo ds → In e ds → (lo ≤ e.base) × IsRange e
In-IsRange lo e [] o i = absurd i
In-IsRange lo e (d ∷ ds) o (inl p) = ground arith
In-IsRange lo e (d ∷ ds) o (inr p) = let r = In-IsRange d.limit e ds o.2 p in (omega arith, r.1)

-- No entry begins at or before an address below the first base.
before_upper-eq-none :
    (lo k l : ℕ) (ds : List Entry) → OrderedFrom lo ds → k < lo → before_upper k l ds ≡ none
before_upper-eq-none lo k l ds o h = elim (Option-cases (before_upper k l ds)) [
  | inl e ↦ e
  | inr (f, e) ↦ absurd (omega (arith, before_upper-bounds lo k l ds o e))
]

before_upper-finds :
    (lo k : ℕ) (e : Entry) (ds : List Entry)
    → OrderedFrom lo ds
    → In e ds
    → e.base ≤ k
    → k < e.limit
    → before_upper k max_key ds ≡ some e
before_upper-finds lo k e [] o i p q = absurd i
before_upper-finds lo k e (d ∷ ds) o (inl r) p q =
    before_upper-none k max_key d ds (ground arith)
      (before_upper-eq-none d.limit k max_key ds o.2 (ground arith))
    ∙ ap (λ (x : Entry). some x) (sym r)
before_upper-finds lo k e (d ∷ ds) o (inr r) p q =
    before_upper-some k max_key d ds (ground (arith, In-IsRange d.limit e ds o.2 r))
      (before_upper-finds d.limit k e ds o.2 r p q)

before_upper-In : (k l : ℕ) (ds : List Entry) {f : Entry} → before_upper k l ds ≡ some f → In f ds
before_upper-In k l [] e = unfold before_upper in cc
before_upper-In k l (d ∷ ds) e = elim (before_upper-cases k l d ds e) [
  | inl (p, q, r) ↦ inl (sym q)
  | inr (p, q) ↦ inr (before_upper-In k l ds q)
]

route-some :
    (ds : List Entry) (a n : ℕ) (e : Entry)
    → before_upper a max_key ds ≡ some e
    → e.base ≤ a
    → u64 (a + n) ≤ e.limit
    → route ds a n ≡ some e
unfolding route
route-some ds a n e p q r = ground arith

route-inv :
    (ds : List Entry) (a n : ℕ) (e : Entry)
    → route ds a n ≡ some e
    → (before_upper a max_key ds ≡ some e) × (e.base ≤ a) × (u64 (a + n) ≤ e.limit)
unfolding route
route-inv ds a n e h = ground arith

-- On a table in order, a non-empty access that does not reach 2 ^ 64 leads to an entry exactly when
-- that entry is in the table and its range holds the whole access.
pub route_iff :
    (ds : List Entry) (a n : ℕ) (e : Entry)
    → Ordered ds
    → 0 < n
    → a + n < 2 ^ 64
    → (route ds a n ≡ some e) ↔ (In e ds × (e.base ≤ a) × (a + n ≤ e.limit))
route_iff ds a n e o p w = (
  λ h. let i = route-inv ds a n e h in (before_upper-In a max_key ds i.0, i.1, omega arith),
  λ h. route-some ds a n e (before_upper-finds 0 a e ds o h.0 h.1 (omega arith)) h.1 (omega arith),
)

-- An entry without raw addresses hands its device the offset into the range.
pub device_addr-offset :
    (e : Entry) (a : ℕ)
    → IsRange e
    → e.raw_addr ≡ false
    → e.base ≤ a
    → a < e.limit
    → device_addr e a ≡ a - e.base
device_addr-offset e a r raw p q =
    rw (raw, size)
      (ap (λ (t : ℕ). t % n) whole
        ∙ add-mul-mod_self_left (a - e.base) n (e.base / n)
        ∙ mod-eq_of_lt (omega arith))
  where
    n : ℕ
    n = e.limit - e.base

    size : sub64 e.limit e.base ≡ n
    size = omega arith

    whole : a ≡ a - e.base + n * (e.base / n)
    whole = omega (arith, div-add-mod e.base n)

-- An access to the last eight bytes below 2 ^ 64 leads to the last entry before that address, however
-- far its range is from there.
pub route_top :
    (ds : List Entry) (e : Entry)
    → before_upper (2 ^ 64 - 8) max_key ds ≡ some e
    → e.base ≤ 2 ^ 64 - 8
    → route ds (2 ^ 64 - 8) 8 ≡ some e
route_top ds e p q = route-some ds (2 ^ 64 - 8) 8 e p q (omega arith)
