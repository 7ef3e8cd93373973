-- ===== src/Sv39/Maps.antt =====
-- Page tables in a memory, as difftest/src/rv_sv39.hpp reads them.
use hdu_cpu_lab.Common.{
  ℕ, zero, suc, ◌+◌, ◌-◌, ◌*◌, ◌%◌, ◌^◌, ◌≤◌, ◌<◌, ◌≡◌, refl, ◌⊎◌, true, false, Option, none, some,
  arith, sym, subst,
}
use hdu_cpu_lab.Common.Bytes.{from_bytes, read_bytes}
use hdu_cpu_lab.Device.Mem.{Mem}
use hdu_cpu_lab.Bus.{Bus}
use hdu_cpu_lab.Bus.Table.{Entry}
use hdu_cpu_lab.Bus.Access.{Holds, view}
use hdu_cpu_lab.Sv39.Fields.{va_vpn, pte_v, pte_r, pte_w, pte_x, pte_reserved, pte_pbmt, pte_pa}

-- The byte and the doubleword that lie in memory at a physical address.
abbrev pub or_zero : Option ℕ → ℕ
or_zero none = 0
or_zero (some byte) = byte

abbrev pub byte_at : Bus Mem → ℕ → ℕ
byte_at b x = or_zero (view b x)

abbrev pub word_at : Bus Mem → ℕ → ℕ
word_at b x = from_bytes (read_bytes (byte_at b) x 8)

abbrev pub IsValid : ℕ → Type 0
IsValid pte =
    (pte_v pte ≡ true)
    × ((pte_r pte ≡ true) ⊎ (pte_w pte ≡ false))
    × (pte_reserved pte ≡ 0)
    × (pte_pbmt pte ≡ 0)

abbrev pub IsLeaf : ℕ → Type 0
IsLeaf pte = (pte_r pte ≡ true) ⊎ (pte_x pte ≡ true)

-- A page table as a tree in memory: from the table of level `i` at an address on, `va` leads to the
-- leaf `pte` of level `level`. A leaf of level 2, 1 or 0 maps a page of 1 GB, 2 MB or 4 KB, and its
-- page begins at a multiple of that size.
pub data Maps (b : Bus Mem) (va : ℕ) : ℕ → ℕ → ℕ → ℕ → Type 0 where
  leaf :
      (i table : ℕ) (e : Entry)
      → Holds b (table + va_vpn va i * 8) 8 e
      → IsValid (word_at b (table + va_vpn va i * 8))
      → IsLeaf (word_at b (table + va_vpn va i * 8))
      → pte_pa (word_at b (table + va_vpn va i * 8)) % 2 ^ (12 + 9 * i) ≡ 0
      → Maps b va (suc i) table (word_at b (table + va_vpn va i * 8)) i
  points :
      (i table pte level : ℕ) (e : Entry)
      → Holds b (table + va_vpn va i * 8) 8 e
      → IsValid (word_at b (table + va_vpn va i * 8))
      → ¬ IsLeaf (word_at b (table + va_vpn va i * 8))
      → Maps b va i (pte_pa (word_at b (table + va_vpn va i * 8))) pte level
      → Maps b va (suc i) table pte level

-- Where the walk reads at level `i`.
abbrev pub place : ℕ → ℕ → ℕ → ℕ
place va i table = table + va_vpn va i * 8

module _ (b : Bus Mem) (va i table : ℕ) where
  pub Maps-Holds :
      {pte level : ℕ}
      → Maps b va (suc i) table pte level
      → (e : Entry) × Holds b (place va i table) 8 e × IsValid (word_at b (place va i table))
  Maps-Holds (leaf _ _ e h v _ _) = (e, h, v)
  Maps-Holds (points _ _ _ _ e h v _ _) = (e, h, v)

  pub Maps-aligned :
      {pte level : ℕ}
      → Maps b va (suc i) table pte level
      → IsLeaf (word_at b (place va i table))
      → pte_pa (word_at b (place va i table)) % 2 ^ (12 + 9 * i) ≡ 0
  Maps-aligned (leaf _ _ _ _ _ _ a) l = a
  Maps-aligned (points _ _ _ _ _ _ _ n _) l = absurd (n l)

  pub Maps-deeper :
      {pte level : ℕ}
      → Maps b va (suc i) table pte level
      → ¬ IsLeaf (word_at b (place va i table))
      → Maps b va i (pte_pa (word_at b (place va i table))) pte level
  Maps-deeper (leaf _ _ _ _ _ l _) n = absurd (n l)
  Maps-deeper (points _ _ _ _ _ _ _ _ m) n = m

  pub Maps-leaf :
      {pte level : ℕ}
      → Maps b va (suc i) table pte level
      → IsLeaf (word_at b (place va i table))
      → (pte ≡ word_at b (place va i table)) × (level ≡ i)
  Maps-leaf (leaf _ _ _ _ _ _ _) l = (refl, refl)
  Maps-leaf (points _ _ _ _ _ _ _ n _) l = absurd (n l)

pub Maps-level : {b : Bus Mem} {va i table pte level : ℕ} → Maps b va i table pte level → level < i
Maps-level (leaf _ _ _ _ _ _ _) = omega arith
Maps-level (points _ _ _ _ _ _ _ _ m) = let p = Maps-level m in omega arith

-- An address leads to one leaf at most.
pub Maps-unique :
    (b : Bus Mem) (va : ℕ) {i table pte level pte' level' : ℕ}
    → Maps b va i table pte level
    → Maps b va i table pte' level'
    → (pte ≡ pte') × (level ≡ level')
Maps-unique b va (leaf i table e h v l a) m =
    let p = Maps-leaf b va i table m l in (sym p.0, sym p.1)
Maps-unique b va (points i table pte level e h v n m) m' =
    Maps-unique b va m (Maps-deeper b va i table m' n)

-- Two addresses on one page of 2 ^ (12 + 9 * level) bytes.
abbrev pub SamePage : ℕ → ℕ → ℕ → Type 0
SamePage level va va' = va - va % 2 ^ (12 + 9 * level) ≡ va' - va' % 2 ^ (12 + 9 * level)

same_vpn :
    (i level va va' : ℕ) → i < 3 → level ≤ i → SamePage level va va' → va_vpn va i ≡ va_vpn va' i
same_vpn zero zero va va' n l p = omega arith
same_vpn zero (suc level) va va' n l p = absurd (omega arith)
same_vpn (suc zero) zero va va' n l p = omega arith
same_vpn (suc zero) (suc zero) va va' n l p = omega arith
same_vpn (suc zero) (suc (suc level)) va va' n l p = absurd (omega arith)
same_vpn (suc (suc zero)) zero va va' n l p = omega arith
same_vpn (suc (suc zero)) (suc zero) va va' n l p = omega arith
same_vpn (suc (suc zero)) (suc (suc zero)) va va' n l p = omega arith
same_vpn (suc (suc zero)) (suc (suc (suc level))) va va' n l p = absurd (omega arith)
same_vpn (suc (suc (suc i))) level va va' n l p = absurd (omega arith)

-- The addresses of a page lead to the same leaf.
pub Maps-SamePage :
    (b : Bus Mem) (va va' : ℕ) {i table pte level : ℕ}
    → Maps b va i table pte level
    → i ≤ 3
    → SamePage level va va'
    → Maps b va' i table pte level
Maps-SamePage b va va' (leaf i table e h v l a) n p =
    let q = same_vpn i i va va' (omega arith) (omega arith) p in
    let at = λ (k : ℕ). table + k * 8 in
    subst (λ k. Maps b va' (suc i) table (word_at b (at k)) i) (sym q)
      (leaf i table e (subst (λ k. Holds b (at k) 8 e) q h)
        (subst (λ k. IsValid (word_at b (at k))) q v) (subst (λ k. IsLeaf (word_at b (at k))) q l)
        (subst (λ k. pte_pa (word_at b (at k)) % 2 ^ (12 + 9 * i) ≡ 0) q a))
Maps-SamePage b va va' (points i table pte level e h v l m) n p =
    let below = Maps-level m in
    let q = same_vpn i level va va' (omega arith) (omega arith) p in
    let at = λ (k : ℕ). table + k * 8 in
    points i table pte level e (subst (λ k. Holds b (at k) 8 e) q h)
      (subst (λ k. IsValid (word_at b (at k))) q v) (subst (λ k. ¬ IsLeaf (word_at b (at k))) q l)
      (subst (λ k. Maps b va' i (pte_pa (word_at b (at k))) pte level) q
        (Maps-SamePage b va va' m (omega arith) p))
