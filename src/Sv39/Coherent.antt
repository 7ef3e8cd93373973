-- ===== src/Sv39/Coherent.antt =====
-- The TLB of difftest/src/rv_sv39.hpp and the page tables behind it.
use hdu_cpu_lab.Common.{
  ℕ, zero, suc, ◌+◌, ◌-◌, ◌*◌, ◌%◌, ◌^◌, ◌<◌, ◌≡◌, true, ◌||◌, some, arith, ap, ◌∙◌, length,
  get_elem?, ◌==◌,
}
use hdu_cpu_lab.Common.Bits.{bit_and_high}
use hdu_cpu_lab.Device.Mem.{Mem}
use hdu_cpu_lab.Device.Mem.Laws.{mem_dev}
use hdu_cpu_lab.Bus.{Bus}
use hdu_cpu_lab.Sv39.{refill_entry}
use hdu_cpu_lab.Sv39.Fields.{
  satp_ppn, satp_asid, pte_r, pte_w, pte_x, pte_u, pte_g, pte_a, pte_d, pte_pa,
}
use hdu_cpu_lab.Sv39.Tlb.{TlbEntry, Sv39, translates, hit, local_tlb_get}
use hdu_cpu_lab.Sv39.Maps.{Maps, SamePage}
use hdu_cpu_lab.Sv39.Lookup.{scan-one}

-- The entry holds the page of an address, as the leaf `pte` of level `level` maps it.
pub record Describes (va pte level : ℕ) (e : TlbEntry) : Type 0 where
  pub size : e.pagesize ≡ suc level
  pub page_of : e.vpa ≡ va - va % 2 ^ (12 + 9 * level)
  pub target : e.ppa ≡ pte_pa pte
  pub readable : e.r ≡ pte_r pte
  pub writable : e.w ≡ pte_w pte
  pub executable : e.x ≡ pte_x pte
  pub user : e.u ≡ pte_u pte
  pub global : e.g ≡ pte_g pte
  pub accessed : e.a ≡ pte_a pte
  pub dirty : e.d ≡ pte_d pte

pub Describes-SamePage :
    {va va' pte level : ℕ} {e : TlbEntry}
    → SamePage level va va'
    → Describes va pte level e
    → Describes va' pte level e
Describes-SamePage p d = record {
  size = d.size;
  page_of = d.page_of ∙ p;
  target = d.target;
  readable = d.readable;
  writable = d.writable;
  executable = d.executable;
  user = d.user;
  global = d.global;
  accessed = d.accessed;
  dirty = d.dirty;
}

-- The page tables that satp points to lead from the address to the leaf.
abbrev pub MapsTo : Bus Mem → ℕ → ℕ → ℕ → ℕ → Type 0
MapsTo b satp va pte level = Maps b va 3 (satp_ppn satp * 2 ^ 12) pte level

-- For the address space of satp the TLB agrees with the page tables, no address is translated twice,
-- and the next refill has a place.
pub record IsCoherent (b : Bus Mem) (satp : ℕ) (s : Sv39) : Type 0 where
  pub room : s.random < length s.tlb
  pub sound :
      (k : ℕ) (e : TlbEntry) (va : ℕ)
      → get_elem? s.tlb k ≡ some e
      → va < 2 ^ 64
      → translates (satp_asid satp) va e ≡ true
      → (pte : ℕ) × (level : ℕ) × MapsTo b satp va pte level × Describes va pte level e
  pub single :
      (j k : ℕ) (e f : TlbEntry) (va : ℕ)
      → get_elem? s.tlb j ≡ some e
      → get_elem? s.tlb k ≡ some f
      → va < 2 ^ 64
      → translates (satp_asid satp) va e ≡ true
      → translates (satp_asid satp) va f ≡ true
      → j ≡ k

module _ (asid va : ℕ) (low : va < 2 ^ 64) (e : TlbEntry) where
  pub translates-page :
      (level : ℕ)
      → level < 3
      → e.pagesize ≡ suc level
      → translates asid va e ≡ true
      → e.vpa ≡ va - va % 2 ^ (12 + 9 * level)
  translates-page zero n p t = let q = bit_and_high 12 52 va low in ground arith
  translates-page (suc zero) n p t = let q = bit_and_high 21 43 va low in ground arith
  translates-page (suc (suc zero)) n p t = let q = bit_and_high 30 34 va low in ground arith
  translates-page (suc (suc (suc level))) n p t = absurd (omega arith)

  pub page-translates :
      (level : ℕ)
      → level < 3
      → e.pagesize ≡ suc level
      → (e.asid == asid || e.g) ≡ true
      → e.vpa ≡ va - va % 2 ^ (12 + 9 * level)
      → translates asid va e ≡ true
  page-translates zero n p a v = let q = bit_and_high 12 52 va low in ground arith
  page-translates (suc zero) n p a v = let q = bit_and_high 21 43 va low in ground arith
  page-translates (suc (suc zero)) n p a v = let q = bit_and_high 30 34 va low in ground arith
  page-translates (suc (suc (suc level))) n p a v = absurd (omega arith)

  pub translates-space : translates asid va e ≡ true → (e.asid == asid || e.g) ≡ true
  translates-space t = ground arith

-- The entry of a leaf describes its page, at each address of the page.
pub refill_entry-Describes :
    (satp va pte level : ℕ)
    → level < 3
    → Describes va pte level (refill_entry satp va pte (2 ^ 12 * 2 ^ (9 * level)))
refill_entry-Describes satp va pte zero n = ground arith
refill_entry-Describes satp va pte (suc zero) n = ground arith
refill_entry-Describes satp va pte (suc (suc zero)) n = ground arith
refill_entry-Describes satp va pte (suc (suc (suc level))) n = absurd (omega arith)

-- The lookup finds the entry that translates the address.
pub IsCoherent-hit :
    (b : Bus Mem) (satp va k : ℕ) (e : TlbEntry) (s : Sv39)
    → IsCoherent b satp s
    → va < 2 ^ 64
    → get_elem? s.tlb k ≡ some e
    → translates (satp_asid satp) va e ≡ true
    → local_tlb_get satp va s ≡ hit k
unfolding local_tlb_get
IsCoherent-hit b satp va k e s c low p t =
    scan-one (satp_asid satp) va 0 k e s.tlb p t (λ j f q u. c.single j k f e va q p low u t)
    ∙ ap hit (omega arith)
