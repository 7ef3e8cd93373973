-- ===== src/Sv39.antt =====
-- difftest/src/rv_sv39.hpp: the page table walk of Sv39 and the TLB in front of it.
pub mod Fields
pub mod Tlb
pub mod Fence
pub mod Maps
pub mod Walk
pub mod Lookup
pub mod Coherent
pub mod Refill
pub mod Translate
pub mod Flush
use hdu_cpu_lab.Common.{
  ℕ, zero, suc, ◌+◌, ◌-◌, ◌*◌, ◌/◌, ◌%◌, ◌^◌, Bool, true, false, not, ◌&&◌, ◌||◌, Option, none,
  some, List, [], ◌∷◌, length, get_elem?, set, ltb, ◌==◌, if◌then◌else◌,
}
use hdu_cpu_lab.Common.Words.{u64, field, test_bit}
use hdu_cpu_lab.Common.Bytes.{from_bytes}
use hdu_cpu_lab.Common.Run.{Ran, ret, abort, within, ◌>>=◌}
use hdu_cpu_lab.Device.{MmioDev}
use hdu_cpu_lab.Bus.{Bus, pa_read}
use Fields.{
  satp_ppn, satp_asid, satp_mode, va_vpn, va_is_canonical, pte_v, pte_r, pte_w, pte_x, pte_u, pte_g,
  pte_a, pte_d, pte_ppn0, pte_ppn1, pte_reserved, pte_pbmt, pte_pa,
}
use Tlb.{TlbEntry, Sv39, Hit, miss, hit, twice, local_tlb_get}

-- The class holds the TLB and a reference to the bus.
pub record Mmu (D : Type 0) : Type 0 where
  pub sv39 : Sv39
  pub bus : Bus D

-- A table entry that ends the walk with a page fault.
abbrev pub pte_is_bad : ℕ → Bool
pte_is_bad pte =
    not (pte_v pte)
    || (not (pte_r pte) && pte_w pte)
    || ltb 0 (pte_reserved pte)
    || ltb 0 (pte_pbmt pte)

-- A leaf of level `i` whose page number has bits below the size of the page.
abbrev pub is_misaligned : ℕ → ℕ → Bool
is_misaligned i pte =
    (i == 2 && (ltb 0 (pte_ppn1 pte) || ltb 0 (pte_ppn0 pte))) || (i == 1 && ltb 0 (pte_ppn0 pte))

module _ {D : Type 0} ⦃dev : MmioDev D⦄ where
  -- The loop of `ptw` at level `i - 1`; the result is the leaf and the size of its page.
  unfoldable pub walk : ℕ → ℕ → ℕ → Bus D → Ran (Bus D) (Option (ℕ × ℕ))
  walk va zero pt_addr = ret none
  walk va (suc i) pt_addr = do
    read ← pa_read (u64 (pt_addr + va_vpn va i * 8)) 8
    elim read [
      | none ↦ ret none
      | some bytes ↦
          let pte = from_bytes bytes in
          let deeper = walk va i (pte_pa pte) in
          if pte_is_bad pte
          then ret none
          else if pte_r pte || pte_x pte
          then if is_misaligned i pte then ret none else ret (some (pte, 2 ^ 12 * 2 ^ (9 * i)))
          else deeper
    ]

  unfoldable pub ptw : ℕ → ℕ → Bus D → Ran (Bus D) (Option (ℕ × ℕ))
  unfolding walk
  ptw satp va = if not (satp_mode satp == 8) then ret none else walk va 3 (satp_ppn satp * 2 ^ 12)

-- The TLB entry for a leaf.
abbrev pub refill_entry : ℕ → ℕ → ℕ → ℕ → TlbEntry
refill_entry satp va pte page_size = record {
  ppa = pte_pa pte;
  vpa =
      if page_size == 2 ^ 12
      then va - va % 2 ^ 12
      else if page_size == 2 ^ 21
      then va - va % 2 ^ 21
      else va - va % 2 ^ 30;
  asid = satp_asid satp;
  pagesize = if page_size == 2 ^ 12 then 1 else if page_size == 2 ^ 21 then 2 else 3;
  r = pte_r pte;
  w = pte_w pte;
  x = pte_x pte;
  u = pte_u pte;
  g = pte_g pte;
  a = pte_a pte;
  d = pte_d pte;
}

-- Writing the entry at the place of `random`, which moves on; `none` is the failed assertion that the
-- address then leads to the new entry.
unfoldable pub refill : ℕ → ℕ → ℕ → ℕ → Sv39 → Option (TlbEntry × Sv39)
refill satp va pte page_size s =
    let e = refill_entry satp va pte page_size in
    let t : Sv39 = record { random = (s.random + 1) % length s.tlb; tlb = set s.tlb s.random e } in
    elim (local_tlb_get satp va t) [
      | hit i ↦ if i == s.random then some (e, t) else none
      | _ ↦ none
    ]

module _ {D : Type 0} ⦃dev : MmioDev D⦄ where
  pub miss_path : ℕ → ℕ → Mmu D → Ran (Mmu D) (Option TlbEntry)
  unfolding refill
  miss_path satp va = do
    walked ← within (λ m. m.bus) (λ b m. record m { bus = b }) (ptw satp va)
    elim walked [
      | none ↦ ret none
      | some (pte, page_size) ↦ λ m. elim (refill satp va pte page_size m.sv39) [
        | none ↦ abort
        | some (e, s) ↦ ret (some e) (record m { sv39 = s })
      ]
    ]

  -- The result is the entry pointed to; `none` is the null pointer.
  unfoldable pub local_tlbe_get : ℕ → ℕ → Mmu D → Ran (Mmu D) (Option TlbEntry)
  unfolding miss_path
  local_tlbe_get satp va m =
      if not (va_is_canonical va) then abort else elim (local_tlb_get satp va m.sv39) [
        | hit i ↦ elim (get_elem? m.sv39.tlb i) [ none ↦ abort | some e ↦ ret (some e) m ]
        | twice ↦ abort
        | miss ↦ miss_path satp va m
      ]
