-- ===== src/Bus/FlatRead.antt =====
-- Reads on a bus whose devices are memories, difftest/src/rv_systembus.hpp.
use hdu_cpu_lab.Common.{
  ℕ, ◌+◌, ◌-◌, ◌^◌, ◌≤◌, ◌<◌, ◌≡◌, inl, inr, none, some, List, arith, ◌∙◌, sym, ap, fun_ext,
  Option-cases, Bool-cases, subst, length, get_or, leb, if◌then◌else◌, leb→le, le→leb,
}
use mathlib.Core.Bool.{false≢true}
use mathlib.Core.Option.{some_inj}
use hdu_cpu_lab.Common.Run.{ret}
use hdu_cpu_lab.Common.Bytes.{read_bytes, length-read_bytes, get_or-read_bytes}
use hdu_cpu_lab.Device.Mem.{Mem}
use hdu_cpu_lab.Device.Mem.Laws.{mem_dev, do_read-cases}
use hdu_cpu_lab.Bus.{Bus, route, put, pa_read}
use hdu_cpu_lab.Bus.Table.{Entry}
use hdu_cpu_lab.Bus.Route.{In-IsRange, route_iff, device_addr-offset}
use hdu_cpu_lab.Bus.Access.{IsFlat, Holds, view}

-- The bus after a read: the memory of the entry is put back as it was.
abbrev reread : Bus Mem → Entry → Bus Mem
reread b e = record b { dev = put b.dev e.dev (b.dev e.dev) }

reread-eq : (b : Bus Mem) (e : Entry) → reread b e ≡ b
reread-eq b e = ap (λ d. record b { dev = d }) (fun_ext λ k. ground arith)

-- What a read comes to: the bytes of the stretch, or a refusal.
pub data Delivers (b : Bus Mem) (a n : ℕ) : Type 0 where
  delivered :
      (e : Entry) (bytes : List ℕ)
      → Holds b a n e
      → pa_read a n b ≡ ret (some bytes) b
      → length bytes ≡ n
      → ((i : ℕ) → i < n → view b (a + i) ≡ some (get_or bytes i 0))
      → Delivers b a n
  unmapped : ((e : Entry) → ¬ Holds b a n e) → pa_read a n b ≡ ret none b → Delivers b a n

module _ (b : Bus Mem) (flat : IsFlat b) (a n : ℕ) (some_byte : 0 < n) (low : a + n < 2 ^ 64) where
  at_entry :
      (e : Entry)
      → route b.devices a n ≡ some e
      → pa_read a n b ≡ (
          if leb (a - e.base + n) (b.dev e.dev).mem_size
          then ret (some (read_bytes (b.dev e.dev).cell (a - e.base) n)) (reread b e)
          else ret none b)
  unfolding pa_read
  at_entry e r =
      let h = (route_iff b.devices a n e flat.ordered some_byte low).0 r in
      let range = (In-IsRange 0 e b.devices flat.ordered h.0).1 in
      ground (
        arith,
        device_addr-offset e a range (flat.offsets e h.0) h.1 (omega arith),
        do_read-cases (b.dev e.dev) (a - e.base) n (flat.bounded e.dev) (omega arith),
      )

  byte-view :
      (e : Entry)
      → Holds b a n e
      → (i : ℕ) → i < n
      → view b (a + i) ≡ some (get_or (read_bytes (b.dev e.dev).cell (a - e.base) n) i 0)
  unfolding Holds
  byte-view e h i p =
      let r =
        (route_iff b.devices (a + i) 1 e flat.ordered (omega arith) (omega arith)).1
          (h.0, omega arith, omega arith) in
      let place : a + i - e.base ≡ a - e.base + i = omega arith in
      ground
        (arith, get_or-read_bytes (b.dev e.dev).cell (a - e.base) n i, ap (b.dev e.dev).cell place)

  -- A non-empty read on a flat bus that does not reach 2 ^ 64 delivers the bytes of the stretch where
  -- one memory holds all of it, and is refused anywhere else. It changes nothing.
  pub pa_read-Delivers : Delivers b a n
  unfolding Holds
  pa_read-Delivers = elim (Option-cases (route b.devices a n)) [
    | inl r ↦
        unmapped
          (λ e h.
            let q = (route_iff b.devices a n e flat.ordered some_byte low).1 (h.0, h.1, h.2) in cc)
          (unfold pa_read in rw (r, pa_read))
    | inr (e, r) ↦
        let h = (route_iff b.devices a n e flat.ordered some_byte low).0 r in
        elim (Bool-cases (leb (a - e.base + n) (b.dev e.dev).mem_size)) [
          | inl fits ↦
              let k : Holds b a n e = (h.0, h.1, h.2, leb→le _ _ fits) in
              delivered e (read_bytes (b.dev e.dev).cell (a - e.base) n) k
                (at_entry e r
                  ∙ rw fits (
                      ap (ret (some (read_bytes (b.dev e.dev).cell (a - e.base) n)))
                        (reread-eq b e)))
                (length-read_bytes (b.dev e.dev).cell (a - e.base) n) (byte-view e k)
          | inr over ↦
              unmapped
                (λ f k.
                  let q =
                    (route_iff b.devices a n f flat.ordered some_byte low).1 (k.0, k.1, k.2) in
                  let same : f ≡ e = some_inj.0 (sym q ∙ r) in
                  let fits : a - e.base + n ≤ (b.dev e.dev).mem_size =
                    subst (λ (g : Entry). a - g.base + n ≤ (b.dev g.dev).mem_size) same k.3 in
                  false≢true (sym over ∙ le→leb _ _ fits))
                (at_entry e r ∙ rw over)
        ]
  ]
