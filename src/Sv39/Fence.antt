-- ===== src/Sv39/Fence.antt =====
-- The TLB of difftest/src/rv_sv39.hpp after `sfence_vma`.
use hdu_cpu_lab.Common.{ℕ, ◌+◌, ◌-◌, ◌^◌, ◌≡◌, refl, false, List, [], ◌∷◌, map, arith}
use hdu_cpu_lab.Common.Bits.{bit_and_twice}
use hdu_cpu_lab.Sv39.Tlb.{
  TlbEntry, Sv39, fence_entry, sfence_vma, translates, Hit, miss, scan, local_tlb_get,
}
use hdu_cpu_lab.Sv39.Fields.{satp_asid}

fence-no_translation :
    (asid va : ℕ) (e : TlbEntry) → translates asid va (fence_entry va 0 e) ≡ false
fence-no_translation asid va e =
    let p = bit_and_twice va (2 ^ 64 - 2 ^ 12) in
    let q = bit_and_twice va (2 ^ 64 - 2 ^ 21) in
    let r = bit_and_twice va (2 ^ 64 - 2 ^ 30) in ground arith

scan-fenced :
    (asid va i : ℕ) (found : Hit) (es : List TlbEntry)
    → scan asid va i found (map (fence_entry va 0) es) ≡ found
unfolding scan
scan-fenced asid va i found [] = refl
scan-fenced asid va i found (e ∷ es) =
    rw (fence-no_translation asid va e, scan, map) (scan-fenced asid va (i + 1) found es)

-- After a fence for an address and all address spaces, the TLB has no translation of that address in
-- any of them.
pub sfence_vma-misses : (satp va : ℕ) (s : Sv39) → local_tlb_get satp va (sfence_vma va 0 s) ≡ miss
unfolding local_tlb_get sfence_vma
sfence_vma-misses satp va s = scan-fenced (satp_asid satp) va 0 miss s.tlb
