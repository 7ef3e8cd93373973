-- ===== src/Sv39/Walk.antt =====
-- The page table walk of difftest/src/rv_sv39.hpp on a bus whose devices are memories.
use hdu_cpu_lab.Common.{
  ℕ, zero, suc, ◌+◌, ◌*◌, ◌%◌, ◌^◌, ◌≤◌, ◌<◌, ◌≡◌, ◌≢◌, refl, inl, inr, true, false, ◌||◌, Option,
  none, some, List, arith, sym, ap, ◌∙◌, Bool-cases, length, get_or, ◌==◌, if◌then◌else◌,
}
use hdu_cpu_lab.Common.Words.{u64}
use hdu_cpu_lab.Common.Bytes.{from_bytes, read_bytes, read_bytes_unique}
use hdu_cpu_lab.Common.Run.{Ran, ret, ◌>>=◌}
use hdu_cpu_lab.Device.Mem.{Mem}
use hdu_cpu_lab.Device.Mem.Laws.{mem_dev}
use hdu_cpu_lab.Bus.{Bus, pa_read}
use hdu_cpu_lab.Bus.Table.{Entry}
use hdu_cpu_lab.Bus.Access.{IsFlat, Holds, view}
use hdu_cpu_lab.Bus.FlatRead.{delivered, unmapped, pa_read-Delivers}
use hdu_cpu_lab.Sv39.Maps.{
  or_zero, byte_at, word_at, IsValid, IsLeaf, Maps, leaf, points, place, Maps-Holds, Maps-aligned,
  Maps-deeper,
}
use hdu_cpu_lab.Sv39.{pte_is_bad, is_misaligned, walk, ptw}
use hdu_cpu_lab.Sv39.Fields.{satp_ppn, satp_mode, pte_r, pte_x, pte_pa}

good-IsValid : (pte : ℕ) → pte_is_bad pte ≡ false → IsValid pte
good-IsValid pte h = ground arith

bad : (pte : ℕ) → pte_is_bad pte ≡ true → ¬ IsValid pte
bad pte h v = ground arith

misaligned : (i pte : ℕ) → i < 3 → is_misaligned i pte ≡ true → pte_pa pte % 2 ^ (12 + 9 * i) ≢ 0
misaligned zero pte h m = ground arith
misaligned (suc zero) pte h m = ground arith
misaligned (suc (suc zero)) pte h m = ground arith
misaligned (suc (suc (suc i))) pte h m = absurd (omega arith)

aligned : (i pte : ℕ) → i < 3 → is_misaligned i pte ≡ false → pte_pa pte % 2 ^ (12 + 9 * i) ≡ 0
aligned zero pte h m = ground arith
aligned (suc zero) pte h m = ground arith
aligned (suc (suc zero)) pte h m = ground arith
aligned (suc (suc (suc i))) pte h m = absurd (omega arith)

no-IsLeaf : (pte : ℕ) → (pte_r pte || pte_x pte) ≡ false → ¬ IsLeaf pte
no-IsLeaf pte h l = ground arith

is-IsLeaf : (pte : ℕ) → (pte_r pte || pte_x pte) ≡ true → IsLeaf pte
is-IsLeaf pte h = ground arith

-- What a walk from the table of level `i - 1` comes to.
pub data Walked (b : Bus Mem) (va i table : ℕ) : Type 0 where
  mapped :
      (pte level : ℕ)
      → Maps b va i table pte level
      → walk va i table b ≡ ret (some (pte, 2 ^ 12 * 2 ^ (9 * level))) b
      → Walked b va i table
  faults :
      ((pte level : ℕ) → ¬ Maps b va i table pte level)
      → walk va i table b ≡ ret none b
      → Walked b va i table

-- The rest of a round, once the table entry is read.
abbrev turn : ℕ → ℕ → ℕ → Bus Mem → Ran (Bus Mem) (Option (ℕ × ℕ))
turn va i pte =
    if pte_is_bad pte
    then ret none
    else if pte_r pte || pte_x pte
    then if is_misaligned i pte then ret none else ret (some (pte, 2 ^ 12 * 2 ^ (9 * i)))
    else walk va i (pte_pa pte)

module _ (b : Bus Mem) (va i pte : ℕ) where
  turn-bad : pte_is_bad pte ≡ true → turn va i pte b ≡ ret none b
  turn-bad p = rw p

  turn-points :
      pte_is_bad pte ≡ false
      → (pte_r pte || pte_x pte) ≡ false
      → turn va i pte b ≡ walk va i (pte_pa pte) b
  turn-points p q = rw (p, q)

  turn-misaligned :
      pte_is_bad pte ≡ false
      → (pte_r pte || pte_x pte) ≡ true
      → is_misaligned i pte ≡ true
      → turn va i pte b ≡ ret none b
  turn-misaligned p q r = rw (p, q, r)

  turn-leaf :
      pte_is_bad pte ≡ false
      → (pte_r pte || pte_x pte) ≡ true
      → is_misaligned i pte ≡ false
      → turn va i pte b ≡ ret (some (pte, 2 ^ 12 * 2 ^ (9 * i))) b
  turn-leaf p q r = rw (p, q, r)

module _ (b : Bus Mem) (va i table : ℕ) where
  walk_step :
      (bytes : List ℕ)
      → u64 (place va i table) ≡ place va i table
      → pa_read (place va i table) 8 b ≡ ret (some bytes) b
      → from_bytes bytes ≡ word_at b (place va i table)
      → walk va (suc i) table b ≡ turn va i (word_at b (place va i table)) b
  unfolding walk
  walk_step bytes u r w = rw (u, ◌>>=◌, r) (ap (λ pte. turn va i pte b) w)

  module _ (small : i < 3)
      (step : walk va (suc i) table b ≡ turn va i (word_at b (place va i table)) b)
      (deeper : Walked b va i (pte_pa (word_at b (place va i table)))) where
    Walked-points :
        (e : Entry)
        → Holds b (place va i table) 8 e
        → IsValid (word_at b (place va i table))
        → ¬ IsLeaf (word_at b (place va i table))
        → walk va (suc i) table b ≡ walk va i (pte_pa (word_at b (place va i table))) b
        → Walked b va (suc i) table
    Walked-points e h v n s = elim deeper [
      | mapped pte level m r ↦ mapped pte level (points i table pte level e h v n m) (s ∙ r)
      | faults none_mapped r ↦
          faults (λ pte level m. none_mapped pte level (Maps-deeper b va i table m n)) (s ∙ r)
    ]

    -- A table entry that lies in memory.
    Walked-held : (e : Entry) → Holds b (place va i table) 8 e → Walked b va (suc i) table
    Walked-held e h =
        let w = word_at b (place va i table) in
        elim (Bool-cases (pte_is_bad w)) [
          | inl p ↦
              faults (λ pte level m. bad w p (Maps-Holds b va i table m).2)
                (step ∙ turn-bad b va i w p)
          | inr p ↦ elim (Bool-cases (pte_r w || pte_x w)) [
            | inr q ↦
                Walked-points e h (good-IsValid w p) (no-IsLeaf w q)
                  (step ∙ turn-points b va i w p q)
            | inl q ↦ elim (Bool-cases (is_misaligned i w)) [
              | inl r ↦
                  faults
                    (λ pte level m.
                      misaligned i w small r (Maps-aligned b va i table m (is-IsLeaf w q)))
                    (step ∙ turn-misaligned b va i w p q r)
              | inr r ↦
                  mapped w i
                    (leaf i table e h (good-IsValid w p) (is-IsLeaf w q) (aligned i w small r))
                    (step ∙ turn-leaf b va i w p q r)
            ]
          ]
        ]

word-delivered :
    (b : Bus Mem) (a : ℕ) (bytes : List ℕ)
    → length bytes ≡ 8
    → ((i : ℕ) → i < 8 → view b (a + i) ≡ some (get_or bytes i 0))
    → from_bytes bytes ≡ word_at b a
word-delivered b a bytes len views =
    let e : read_bytes (byte_at b) a (length bytes) ≡ bytes =
      read_bytes_unique (byte_at b) a bytes (λ i p. sym (ap or_zero (views i (omega arith)))) in
    ap from_bytes (sym e ∙ ap (read_bytes (byte_at b) a) len)

module _ (b : Bus Mem) (flat : IsFlat b) (va : ℕ) where
  walk-Walked : (i table : ℕ) → i ≤ 3 → table < 2 ^ 60 → Walked b va i table
  unfolding walk
  walk-Walked zero table n low = faults (λ pte level m. elim m [ ]) refl
  walk-Walked (suc i) table n low =
      let at = place va i table in
      let u : u64 at ≡ at = omega arith in
      elim (pa_read-Delivers b flat at 8 (omega arith) (omega arith)) [
        | unmapped none_holds r ↦
            faults (λ pte level m. let q = Maps-Holds b va i table m in none_holds q.0 q.1)
              (rw (u, ◌>>=◌, r))
        | delivered e bytes h r len views ↦
            let w : from_bytes bytes ≡ word_at b at = word-delivered b at bytes len views in
            Walked-held b va i table (omega arith) (walk_step b va i table bytes u r w)
              (walk-Walked i (pte_pa (word_at b at)) (omega arith) (omega arith)) e h
      ]

-- What a call of `ptw` comes to.
pub data Translates (b : Bus Mem) (satp va : ℕ) : Type 0 where
  translated :
      (pte level : ℕ)
      → satp_mode satp ≡ 8
      → Maps b va 3 (satp_ppn satp * 2 ^ 12) pte level
      → ptw satp va b ≡ ret (some (pte, 2 ^ 12 * 2 ^ (9 * level))) b
      → Translates b satp va
  page_fault :
      ((pte level : ℕ) → satp_mode satp ≡ 8 → ¬ Maps b va 3 (satp_ppn satp * 2 ^ 12) pte level)
      → ptw satp va b ≡ ret none b
      → Translates b satp va

-- On a flat bus ptw comes back and changes nothing.
pub ptw-Translates : (b : Bus Mem) → IsFlat b → (satp va : ℕ) → Translates b satp va
unfolding ptw
ptw-Translates b flat satp va = elim (Bool-cases (satp_mode satp == 8)) [
  | inr n ↦ page_fault (λ pte level m. absurd (ground arith)) (rw n)
  | inl y ↦ elim (walk-Walked b flat va 3 (satp_ppn satp * 2 ^ 12) (omega arith) (omega arith)) [
    | mapped pte level m r ↦ translated pte level (ground arith) m (rw y r)
    | faults n r ↦ page_fault (λ pte level _ m. n pte level m) (rw y r)
  ]
]
