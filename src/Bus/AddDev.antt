-- ===== src/Bus/AddDev.antt =====
-- `add_dev` of difftest/src/rv_systembus.hpp.
use hdu_cpu_lab.Common.{
  ℕ, ◌+◌, ◌-◌, ◌%◌, ◌^◌, ◌<◌, ◌≡◌, refl, ◌⊎◌, ◌↔◌, inl, inr, Bool, true, false, Option, none, some,
  arith, ◌∙◌, sym, Bool-cases, ==_iff, ◌==◌,
}
use Prim.Native.Nat.{zero-le}
use mathlib.Core.Bool.{false≢true}
use hdu_cpu_lab.Common.Run.{Ran, ret}
use hdu_cpu_lab.Common.Words.{u64}
use hdu_cpu_lab.Bus.Table.{Entry, upper_bound, before_upper, insert, overlaps}
use hdu_cpu_lab.Bus.{Bus, add_dev}
use hdu_cpu_lab.Bus.Order.{All, In, Ordered, Apart, All-upper_bound, All-before_upper}
use hdu_cpu_lab.Bus.Insert.{overlaps-not-Apart, neighbours-Apart, insert-Ordered, In-insert}

module _ {D : Type 0} (b : Bus D) (start_addr size dev : ℕ) (raw_addr : Bool) where
  -- The entry that `add_dev` asks for.
  abbrev pub new_entry : Entry
  new_entry = record {
    base = start_addr;
    limit = u64 (start_addr + size);
    raw_addr = raw_addr;
    dev = dev;
  }

-- What a call of `add_dev` may do on a table in order: accept an aligned range that is apart from
-- all others, or refuse one that is not.
pub data Added {D : Type 0} (b : Bus D) (e : Entry) (size : ℕ) : Ran (Bus D) Bool → Type 0 where
  accepted :
      e.base % size ≡ 0
      → All (Apart e) b.devices
      → Ordered (insert e b.devices)
      → ((f : Entry) → In f (insert e b.devices) ↔ ((f ≡ e) ⊎ In f b.devices))
      → Added b e size (ret true (record b { devices = insert e b.devices }))
  rejected : ¬ ((e.base % size ≡ 0) × All (Apart e) b.devices) → Added b e size (ret false b)

-- On a table in order, for a range that is not empty and does not reach 2 ^ 64: `add_dev` accepts
-- exactly the ranges that are aligned to their size and apart from every range of the table; it then
-- adds that range alone and keeps the table in order, and otherwise changes nothing.
pub add_dev-Added :
    {D : Type 0} (b : Bus D) (start_addr size dev : ℕ) (raw_addr : Bool)
    → Ordered b.devices
    → 0 < size
    → start_addr + size < 2 ^ 64
    → Added b
        (new_entry b start_addr size dev raw_addr)
        size
        (add_dev start_addr size dev raw_addr b)
unfolding add_dev
add_dev-Added b start_addr size dev raw_addr o p q =
    rw nonzero (elim (Bool-cases (start_addr % size == 0)) [
      | inr m ↦ rw m (rejected (λ h. false≢true (sym m ∙ (==_iff (start_addr % size) 0).1 h.0)))
      | inl m ↦ elim (Bool-cases (overlaps (upper_bound e.base e.limit b.devices) e)) [
        | inl u ↦
            rw (m, u)
              (rejected λ h.
                hit (upper_bound e.base e.limit b.devices) u
                  (λ f g. All-upper_bound (Apart e) e.base e.limit b.devices g h.1))
        | inr u ↦ elim (Bool-cases (overlaps (before_upper e.base e.limit b.devices) e)) [
          | inl v ↦
              rw (m, u, v)
                (rejected λ h.
                  hit (before_upper e.base e.limit b.devices) v
                    (λ f g. All-before_upper (Apart e) e.base e.limit b.devices g h.1))
          | inr v ↦
              rw (m, u, v)
                (fits ((==_iff (start_addr % size) 0).0 m)
                  (neighbours-Apart 0 e b.devices o shape.0 u v))
        ]
      ]
    ])
  where
    e : Entry
    e = new_entry b start_addr size dev raw_addr

    nonzero : (size == 0) ≡ false
    nonzero = ground arith

    shape : (e.base < e.limit) × (e.limit < 2 ^ 64) × (e.limit - e.base ≡ size)
    shape = (omega arith, omega arith, omega arith)

    hit : (o : Option Entry) → overlaps o e ≡ true → ((f : Entry) → o ≡ some f → Apart e f) → ⊥
    hit none h k = unfold overlaps in cc
    hit (some f) h k = overlaps-not-Apart f e h (k f refl)

    fits :
        start_addr % size ≡ 0
        → All (Apart e) b.devices
        → Added b e size (ret true (record b { devices = insert e b.devices }))
    fits m a =
        accepted m a (insert-Ordered 0 e b.devices o a zero-le (shape.0, shape.1, rw shape.2 m))
          (λ f. In-insert 0 e f b.devices o a shape.0)
