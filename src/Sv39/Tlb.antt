-- ===== src/Sv39/Tlb.antt =====
-- The TLB of difftest/src/rv_sv39.hpp: lookup and fences.
use hdu_cpu_lab.Common.{
  ℕ, ◌+◌, ◌-◌, ◌^◌, Bool, false, ◌&&◌, ◌||◌, List, [], ◌∷◌, map, bit_and, ◌==◌, if◌then◌else◌,
}
use hdu_cpu_lab.Sv39.Fields.{satp_asid}

-- struct sv39_tlb_entry; `pagesize` is 0 for an invalid entry, 1, 2, 3 for 4 KB, 2 MB, 1 GB.
pub record TlbEntry : Type 0 where
  pub ppa : ℕ
  pub vpa : ℕ
  pub asid : ℕ
  pub pagesize : ℕ
  pub r : Bool
  pub w : Bool
  pub x : Bool
  pub u : Bool
  pub g : Bool
  pub a : Bool
  pub d : Bool

-- `random` is the place that the next refill takes.
pub record Sv39 : Type 0 where
  pub random : ℕ
  pub tlb : List TlbEntry

abbrev pub invalid : TlbEntry → TlbEntry
invalid e = record e { pagesize = 0 }

-- The constructor leaves all of an entry but `pagesize` arbitrary.
unfoldable pub rv_sv39 : List TlbEntry → Sv39
rv_sv39 uninitialised = record { random = 0; tlb = map invalid uninitialised }

-- `va & (-(1ll << k))`
abbrev pub page : ℕ → ℕ → ℕ
page k va = bit_and va (2 ^ 64 - 2 ^ k)

abbrev pub fence_entry : ℕ → ℕ → TlbEntry → TlbEntry
fence_entry vaddr asid e =
    if e.asid == asid || asid == 0
    then if vaddr == 0
      then invalid e
      else if e.pagesize == 1
      then if page 12 e.vpa == page 12 vaddr then invalid e else e
      else if e.pagesize == 2
      then if page 21 e.vpa == page 21 vaddr then invalid e else e
      else if e.pagesize == 3
      then if page 30 e.vpa == page 30 vaddr then invalid e else e
      else e
    else e

unfoldable pub sfence_vma : ℕ → ℕ → Sv39 → Sv39
sfence_vma vaddr asid s = record s { tlb = map (fence_entry vaddr asid) s.tlb }

-- The entry translates the address for this address space.
abbrev pub translates : ℕ → ℕ → TlbEntry → Bool
translates asid va e =
    (e.asid == asid || e.g)
    && (if e.pagesize == 1
        then page 12 va == e.vpa
        else if e.pagesize == 2
        then page 21 va == e.vpa
        else if e.pagesize == 3
        then page 30 va == e.vpa
        else false)

-- The index of the entry found; `twice` is the failed assertion that there is one at most.
pub data Hit : Type 0 where
  miss : Hit
  hit : ℕ → Hit
  twice : Hit

-- The loop of `local_tlb_get` from index `i`, with what was found before.
unfoldable pub scan : ℕ → ℕ → ℕ → Hit → List TlbEntry → Hit
scan asid va i found [] = found
scan asid va i found (e ∷ es) =
    scan asid va (i + 1)
      (if translates asid va e then elim found [ miss ↦ hit i | _ ↦ twice ] else found) es

unfoldable pub local_tlb_get : ℕ → ℕ → Sv39 → Hit
unfolding scan
local_tlb_get satp va s = scan (satp_asid satp) va 0 miss s.tlb
