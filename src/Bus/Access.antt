-- ===== src/Bus/Access.antt =====
-- The bytes of a bus whose devices are memories, and writes, difftest/src/rv_systembus.hpp.
use hdu_cpu_lab.Common.{
  ℕ, ◌+◌, ◌-◌, ◌^◌, ◌≤◌, ◌<◌, ◌≡◌, refl, ◌↔◌, ◌⊎◌, inl, inr, Bool, true, false, ◌&&◌, Option, none,
  some, List, arith, ◌∙◌, sym, ap, Option-cases, Bool-cases, ==_iff, subst, length, get_or, leb,
  ltb, ◌==◌, if◌then◌else◌, le→leb, leb→le,
}
use mathlib.Core.Bool.{false≢true}
use mathlib.Core.Option.{some_inj}
use hdu_cpu_lab.Common.Words.{u64}
use hdu_cpu_lab.Common.Run.{ret}
use hdu_cpu_lab.Common.Bytes.{write_bytes, write_bytes_inside, write_bytes_outside}
use hdu_cpu_lab.Device.Mem.{Mem, written}
use hdu_cpu_lab.Device.Mem.Laws.{mem_dev, do_write-cases}
use hdu_cpu_lab.Bus.{Bus, route, put, pa_write, routed_write}
use hdu_cpu_lab.Bus.Table.{Entry}
use hdu_cpu_lab.Bus.Order.{In, Ordered}
use hdu_cpu_lab.Bus.Route.{In-IsRange, route_iff, device_addr-offset}

-- A bus whose devices are memories without wrapping accesses, each mapped once and by offset.
pub record IsFlat (b : Bus Mem) : Type 0 where
  pub ordered : Ordered b.devices
  pub offsets : (e : Entry) → In e b.devices → e.raw_addr ≡ false
  pub bounded : (k : ℕ) → (b.dev k).allow_warp ≡ false
  pub once : (e f : Entry) → In e b.devices → In f b.devices → e.dev ≡ f.dev → e ≡ f

abbrev byte_of : Bus Mem → ℕ → Option Entry → Option ℕ
byte_of b x none = none
byte_of b x (some e) =
    let m = b.dev e.dev in if ltb (x - e.base) m.mem_size then some (m.cell (x - e.base)) else none

-- The byte at a physical address, if a memory holds one there.
abbrev pub view : Bus Mem → ℕ → Option ℕ
view b x = byte_of b x (route b.devices x 1)

-- The entry that holds the whole stretch of `n` bytes from `a`, with memory behind all of it.
unfoldable pub Holds : Bus Mem → ℕ → ℕ → Entry → Type 0
Holds b a n e =
    In e b.devices × (e.base ≤ a) × (a + n ≤ e.limit) × (a - e.base + n ≤ (b.dev e.dev).mem_size)

-- The bus after a write to the memory of an entry.
abbrev pub stored : Bus Mem → Entry → ℕ → List ℕ → Bus Mem
stored b e a bs = record b { dev = put b.dev e.dev (written (b.dev e.dev) (a - e.base) bs) }

module _ (b : Bus Mem) (flat : IsFlat b) (a : ℕ) (bs : List ℕ) (some_byte : 0 < length bs)
    (low : a + length bs < 2 ^ 64) where
  at_entry :
      (e : Entry)
      → route b.devices a (length bs) ≡ some e
      → routed_write a bs b ≡ (
          if leb (a - e.base + length bs) (b.dev e.dev).mem_size
          then ret true (stored b e a bs)
          else ret false b)
  unfolding routed_write
  at_entry e r =
      let h = (route_iff b.devices a (length bs) e flat.ordered some_byte low).0 r in
      let range = (In-IsRange 0 e b.devices flat.ordered h.0).1 in
      ground (
        arith,
        device_addr-offset e a range (flat.offsets e h.0) h.1 (omega arith),
        do_write-cases (b.dev e.dev) (a - e.base) bs (flat.bounded e.dev) (omega arith),
      )

  -- A write succeeds exactly where one memory holds the whole stretch.
  pub routed_write-cases :
      ((e : Entry) × Holds b a (length bs) e × (routed_write a bs b ≡ ret true (stored b e a bs)))
      ⊎ ((e : Entry) → ¬ Holds b a (length bs) e) × (routed_write a bs b ≡ ret false b)
  unfolding Holds
  routed_write-cases = elim (Option-cases (route b.devices a (length bs))) [
    | inl r ↦ inr (
      λ e h.
          let q =
            (route_iff b.devices a (length bs) e flat.ordered some_byte low).1 (h.0, h.1, h.2) in
          cc,
      unfold routed_write in rw (r, routed_write),
    )
    | inr (e, r) ↦
        let h = (route_iff b.devices a (length bs) e flat.ordered some_byte low).0 r in
        elim (Bool-cases (leb (a - e.base + length bs) (b.dev e.dev).mem_size)) [
          | inl fits ↦ inl (e, (h.0, h.1, h.2, leb→le _ _ fits), at_entry e r ∙ rw fits)
          | inr over ↦ inr (
            λ f k.
                let q =
                  (route_iff b.devices a (length bs) f flat.ordered some_byte low).1
                    (k.0, k.1, k.2) in
                let same : f ≡ e = some_inj.0 (sym q ∙ r) in
                let fits : a - e.base + length bs ≤ (b.dev e.dev).mem_size =
                  subst (λ (g : Entry). a - g.base + length bs ≤ (b.dev g.dev).mem_size) same k.3 in
                false≢true (sym over ∙ le→leb _ _ fits),
            at_entry e r ∙ rw over,
          )
        ]
  ]

  module _ (e : Entry) (h : Holds b a (length bs) e) (x : ℕ) where
    inside-route : a ≤ x → x < a + length bs → route b.devices x 1 ≡ some e
    unfolding Holds
    inside-route p q =
        (route_iff b.devices x 1 e flat.ordered (omega arith) (omega arith)).1
          (h.0, omega arith, omega arith)

    cell-inside :
        a ≤ x
        → x < a + length bs
        → write_bytes (b.dev e.dev).cell (a - e.base) bs (x - e.base) ≡ get_or bs (x - a) 0
    unfolding Holds
    cell-inside p q =
        ap (write_bytes (b.dev e.dev).cell (a - e.base) bs) (omega arith)
        ∙ write_bytes_inside (b.dev e.dev).cell (a - e.base) bs (x - a) (omega arith)

    stored-view_at :
        x + 1 < 2 ^ 64
        → route b.devices x 1 ≡ some e
        → view (stored b e a bs) x
          ≡ (if leb a x && ltb x (a + length bs) then some (get_or bs (x - a) 0) else view b x)
    unfolding Holds
    stored-view_at w r =
        let at = (route_iff b.devices x 1 e flat.ordered (omega arith) w).0 r in
        ground
          (arith, cell-inside, write_bytes_outside (b.dev e.dev).cell (a - e.base) bs (x - e.base))

    -- What a write leaves at each address.
    pub stored-view :
        x + 1 < 2 ^ 64
        → view (stored b e a bs) x
          ≡ (if leb a x && ltb x (a + length bs) then some (get_or bs (x - a) 0) else view b x)
    unfolding Holds
    stored-view w = elim (Option-cases (route b.devices x 1)) [
      | inl r ↦ ground (arith, inside-route)
      | inr (f, r) ↦ elim (Bool-cases (e.dev == f.dev)) [
        | inl same ↦
            let at = (route_iff b.devices x 1 f flat.ordered (omega arith) w).0 r in
            stored-view_at w (
              r
              ∙ ap (λ (g : Entry). some g)
                  (sym (flat.once e f h.0 at.0 ((==_iff e.dev f.dev).0 same))))
        | inr other ↦ ground (arith, inside-route)
      ]
    ]

  pub stored-IsFlat : (e : Entry) → IsFlat (stored b e a bs)
  stored-IsFlat e = record {
    ordered = flat.ordered;
    offsets = flat.offsets;
    bounded = λ k. ground (arith, flat.bounded k, flat.bounded e.dev);
    once = flat.once;
  }

-- What a write of `bs` at `a` comes to, with its result `ok`: the bytes of the stretch are replaced
-- if `ok`, and no byte changes otherwise.
pub record Wrote (b : Bus Mem) (a : ℕ) (bs : List ℕ) : Type 0 where
  pub ok : Bool
  pub after : Bus Mem
  pub returns : pa_write a bs b ≡ ret ok after
  pub flat : IsFlat after
  pub ok_iff : (ok ≡ true) ↔ ((e : Entry) × Holds b a (length bs) e)
  pub bytes :
      (x : ℕ)
      → x + 1 < 2 ^ 64
      → view after x
        ≡ (if ok && leb a x && ltb x (a + length bs) then some (get_or bs (x - a) 0) else view b x)

module _ (b : Bus Mem) (flat : IsFlat b) (a : ℕ) (bs : List ℕ) (some_byte : 0 < length bs)
    (low : a + length bs < 2 ^ 64) where
  -- The reservation plays no part in where the bytes go.
  abbrev with_valid : Bool → Bus Mem
  with_valid v = record b { lr_valid = v }

  with_valid-IsFlat : (v : Bool) → IsFlat (with_valid v)
  with_valid-IsFlat v = record {
    ordered = flat.ordered;
    offsets = flat.offsets;
    bounded = flat.bounded;
    once = flat.once;
  }

  Wrote-from : (v : Bool) → pa_write a bs b ≡ routed_write a bs (with_valid v) → Wrote b a bs
  unfolding Holds
  Wrote-from v h =
      elim (routed_write-cases (with_valid v) (with_valid-IsFlat v) a bs some_byte low) [
        | inl (e, k, w) ↦ record {
          ok = true;
          after = stored (with_valid v) e a bs;
          returns = h ∙ w;
          flat = stored-IsFlat (with_valid v) (with_valid-IsFlat v) a bs some_byte low e;
          ok_iff = (λ _. (e, k), λ _. refl);
          bytes = stored-view (with_valid v) (with_valid-IsFlat v) a bs some_byte low e k;
        }
        | inr (n, w) ↦ record {
          ok = false;
          after = with_valid v;
          returns = h ∙ w;
          flat = with_valid-IsFlat v;
          ok_iff = (λ t. cc, λ (e, k). absurd (n e k));
          bytes = λ x _. refl;
        }
      ]

  -- A non-empty write on a flat bus that does not reach 2 ^ 64 comes back, and succeeds exactly where
  -- one memory holds the whole stretch; it then replaces the bytes of that stretch alone, and
  -- otherwise it changes no byte. The bus stays flat.
  pub pa_write-Wrote : Wrote b a bs
  pa_write-Wrote =
      elim (Bool-cases (leb a b.lr_pa && leb (u64 (b.lr_pa + length bs)) (u64 (a + length bs)))) [
        | inl p ↦ Wrote-from false (unfold pa_write in rw p)
        | inr p ↦ Wrote-from b.lr_valid (unfold pa_write in rw p)
      ]
