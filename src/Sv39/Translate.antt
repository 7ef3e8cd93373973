-- ===== src/Sv39/Translate.antt =====
-- `local_tlbe_get` of difftest/src/rv_sv39.hpp as a view of the page tables.
use hdu_cpu_lab.Common.{ℕ, ◌*◌, ◌^◌, ◌<◌, ◌≡◌, inl, inr, true, none, some, ◌∙◌, get_elem?}
use hdu_cpu_lab.Common.Run.{ret, ◌>>=◌, within}
use hdu_cpu_lab.Device.Mem.{Mem}
use hdu_cpu_lab.Device.Mem.Laws.{mem_dev}
use hdu_cpu_lab.Bus.Access.{IsFlat}
use hdu_cpu_lab.Sv39.{Mmu, ptw, refill, miss_path, local_tlbe_get}
use hdu_cpu_lab.Sv39.Fields.{satp_asid, satp_mode, va_is_canonical}
use hdu_cpu_lab.Sv39.Tlb.{TlbEntry, Sv39, translates, miss, hit, local_tlb_get}
use hdu_cpu_lab.Sv39.Walk.{translated, page_fault, ptw-Translates}
use hdu_cpu_lab.Sv39.Lookup.{NoneOf, scan-none, lookup-cases}
use hdu_cpu_lab.Sv39.Coherent.{Describes, MapsTo, IsCoherent, IsCoherent-hit}
use hdu_cpu_lab.Sv39.Refill.{entry, refilled, refilled-IsCoherent, refill-finds, entry-Describes}

-- What a lookup comes to.
pub data Serves (satp va : ℕ) (m : Mmu Mem) : Type 0 where
  served :
      (pte level : ℕ) (e : TlbEntry) (s : Sv39)
      → MapsTo m.bus satp va pte level
      → Describes va pte level e
      → IsCoherent m.bus satp s
      → local_tlbe_get satp va m ≡ ret (some e) (record m { sv39 = s })
      → Serves satp va m
  faulted :
      ((pte level : ℕ) → ¬ MapsTo m.bus satp va pte level)
      → local_tlbe_get satp va m ≡ ret none m
      → Serves satp va m

module _ (satp va : ℕ) (m : Mmu Mem) (flat : IsFlat m.bus) (on : satp_mode satp ≡ 8)
    (low : va < 2 ^ 64) (canonical : va_is_canonical va ≡ true)
    (c : IsCoherent m.bus satp m.sv39) where
  at_hit :
      (k : ℕ) (e : TlbEntry)
      → local_tlb_get satp va m.sv39 ≡ hit k
      → get_elem? m.sv39.tlb k ≡ some e
      → local_tlbe_get satp va m ≡ ret (some e) m
  unfolding local_tlbe_get
  at_hit k e h p = rw (canonical, h) (rw p)

  at_miss : NoneOf (satp_asid satp) va m.sv39.tlb → local_tlbe_get satp va m ≡ miss_path satp va m
  unfolding local_tlbe_get
  at_miss n = rw (canonical, missed)
    where
      missed : local_tlb_get satp va m.sv39 ≡ miss
      missed = unfold local_tlb_get in scan-none (satp_asid satp) va 0 miss m.sv39.tlb n

  walk_faults : ptw satp va m.bus ≡ ret none m.bus → miss_path satp va m ≡ ret none m
  unfolding miss_path within
  walk_faults r = rw (◌>>=◌, r)

  walk_fills :
      (pte page_size : ℕ) (e : TlbEntry) (s : Sv39)
      → ptw satp va m.bus ≡ ret (some (pte, page_size)) m.bus
      → refill satp va pte page_size m.sv39 ≡ some (e, s)
      → miss_path satp va m ≡ ret (some e) (record m { sv39 = s })
  unfolding miss_path within
  walk_fills pte page_size e s r f = rw (◌>>=◌, r) (rw f)

  -- In the TLB.
  Serves-hit :
      (k : ℕ) (e : TlbEntry)
      → get_elem? m.sv39.tlb k ≡ some e
      → translates (satp_asid satp) va e ≡ true
      → Serves satp va m
  Serves-hit k e p t =
      let (pte, level, maps, d) = c.sound k e va p low t in
      served pte level e m.sv39 maps d c
        (at_hit k e (IsCoherent-hit m.bus satp va k e m.sv39 c low p t) p)

  -- By a walk.
  Serves-miss : NoneOf (satp_asid satp) va m.sv39.tlb → Serves satp va m
  Serves-miss n = elim (ptw-Translates m.bus flat satp va) [
    | page_fault none_mapped r ↦
        faulted (λ pte level. none_mapped pte level on) (at_miss n ∙ walk_faults r)
    | translated pte level _ maps r ↦
        served pte level (entry m.bus satp va pte level low maps m.sv39 c n)
          (refilled m.bus satp va pte level low maps m.sv39 c n) maps
          (entry-Describes m.bus satp va pte level low maps m.sv39 c n)
          (refilled-IsCoherent m.bus satp va pte level low maps m.sv39 c n)
          (at_miss n
            ∙ walk_fills pte (2 ^ 12 * 2 ^ (9 * level)) _ _ r
                (refill-finds m.bus satp va pte level low maps m.sv39 c n))
  ]

  -- On a flat bus, with a TLB that agrees with the page tables of satp, where satp asks for Sv39, a
  -- call of `local_tlbe_get` for a canonical address below 2 ^ 64 comes back and its assertions hold.
  -- Where the page tables lead from the address to a leaf, the entry delivered has the page, the
  -- target, the size and the permissions of that leaf, whether it was in the TLB or has just been
  -- placed there, and the TLB agrees with the page tables again; otherwise no entry is delivered and
  -- nothing changes. The bus stays as it was.
  pub local_tlbe_get-Serves : Serves satp va m
  local_tlbe_get-Serves = elim (lookup-cases (satp_asid satp) va m.sv39.tlb) [
    | inl n ↦ Serves-miss n
    | inr (k, e, p, t) ↦ Serves-hit k e p t
  ]
