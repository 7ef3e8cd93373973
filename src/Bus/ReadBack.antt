-- ===== src/Bus/ReadBack.antt =====
-- A read after a write on a bus whose devices are memories, difftest/src/rv_systembus.hpp.
use hdu_cpu_lab.Common.{
  ℕ, ◌+◌, ◌-◌, ◌^◌, ◌<◌, ◌≡◌, sym, ap, ◌∙◌, inl, inr, Bool, true, false, ◌&&◌, some, List, arith,
  Bool-cases, length, get_or, leb, list_ext,
}
use mathlib.Core.Option.{some_inj}
use hdu_cpu_lab.Common.Words.{u64}
use hdu_cpu_lab.Common.Run.{ret}
use hdu_cpu_lab.Device.Mem.{Mem}
use hdu_cpu_lab.Device.Mem.Laws.{mem_dev}
use hdu_cpu_lab.Bus.{Bus, pa_read, pa_write, routed_write}
use hdu_cpu_lab.Bus.Table.{Entry}
use hdu_cpu_lab.Bus.Access.{
  IsFlat, Holds, view, stored, stored-view, stored-IsFlat, routed_write-cases,
}
use hdu_cpu_lab.Bus.FlatRead.{delivered, unmapped, pa_read-Delivers}

module _ (a : ℕ) (bs : List ℕ) (some_byte : 0 < length bs) (low : a + length bs < 2 ^ 64) where
  -- The memory still lies behind the stretch after the write.
  stored-Holds :
      (c : Bus Mem) (e : Entry) → Holds c a (length bs) e → Holds (stored c e a bs) a (length bs) e
  unfolding Holds
  stored-Holds c e h = (h.0, h.1, h.2, ground arith)

  reads_back :
      (c : Bus Mem) (e : Entry)
      → IsFlat c
      → Holds c a (length bs) e
      → pa_read a (length bs) (stored c e a bs) ≡ ret (some bs) (stored c e a bs)
  reads_back c e f h =
      elim (pa_read-Delivers d (stored-IsFlat c f a bs some_byte low e) a (length bs) some_byte
        low) [
          | unmapped n _ ↦ absurd (n e (stored-Holds c e h))
          | delivered _ bytes _ r len views ↦
              r
              ∙ ap (λ (x : List ℕ). ret (some x) d)
                  (list_ext bytes bs len (λ i p. some_inj.0 (sym (views i p) ∙ written i p)))
        ]
    where
      d : Bus Mem
      d = stored c e a bs

      written : (i : ℕ) → i < length bs → view d (a + i) ≡ some (get_or bs i 0)
      written i p =
          let place : a + i - a ≡ i = omega arith in
          stored-view c f a bs some_byte low e h (a + i) (omega arith)
          ∙ ground (arith, ap (λ k. get_or bs k 0) place)

-- What a write and a read of the same stretch come to, where one memory holds it.
pub record ReadsBack (b : Bus Mem) (a : ℕ) (bs : List ℕ) : Type 0 where
  pub after : Bus Mem
  pub flat : IsFlat after
  pub writes : pa_write a bs b ≡ ret true after
  pub reads : pa_read a (length bs) after ≡ ret (some bs) after

module _ (b : Bus Mem) (flat : IsFlat b) (a : ℕ) (bs : List ℕ) (some_byte : 0 < length bs)
    (low : a + length bs < 2 ^ 64) (e : Entry) (held : Holds b a (length bs) e) where
  ReadsBack-from :
      (v : Bool)
      → pa_write a bs b ≡ routed_write a bs (record b { lr_valid = v })
      → ReadsBack b a bs
  unfolding Holds
  ReadsBack-from v h = elim (routed_write-cases c c_flat a bs some_byte low) [
    | inl (f, k, w) ↦ record {
      after = stored c f a bs;
      flat = stored-IsFlat c c_flat a bs some_byte low f;
      writes = h ∙ w;
      reads = reads_back a bs some_byte low c f c_flat k;
    }
    | inr (n, w) ↦ absurd (n e held)
  ]
    where
      c : Bus Mem
      c = record b { lr_valid = v }

      c_flat : IsFlat c
      c_flat = record {
        ordered = flat.ordered;
        offsets = flat.offsets;
        bounded = flat.bounded;
        once = flat.once;
      }

  pub pa_write-ReadsBack : ReadsBack b a bs
  pa_write-ReadsBack =
      elim (Bool-cases (leb a b.lr_pa && leb (u64 (b.lr_pa + length bs)) (u64 (a + length bs)))) [
        | inl p ↦ ReadsBack-from false (unfold pa_write in rw p)
        | inr p ↦ ReadsBack-from b.lr_valid (unfold pa_write in rw p)
      ]
