-- ===== src/Examples/Pages.antt =====
-- A page table in memory: one leaf of 1 GB, which maps the lowest addresses to 0x80000000.
use hdu_cpu_lab.Common.{
  ℕ, ◌*◌, ◌+◌, ◌^◌, ◌≡◌, inl, inr, refl, true, false, [], ◌∷◌, Option, none, some, arith, get_or,
}
use hdu_cpu_lab.Common.Bytes.{read_bytes, from_bytes}
use hdu_cpu_lab.Common.Run.{Ran, ret, within}
use hdu_cpu_lab.Device.Mem.{Mem, do_read}
use hdu_cpu_lab.Device.Mem.Laws.{mem_dev}
use hdu_cpu_lab.Bus.{Bus, route, pa_read}
use hdu_cpu_lab.Bus.Table.{before_upper}
use hdu_cpu_lab.Bus.Access.{IsFlat}
use hdu_cpu_lab.Sv39.{Mmu, walk, ptw, refill, local_tlbe_get}
use hdu_cpu_lab.Sv39.Tlb.{TlbEntry, Sv39, sfence_vma, rv_sv39, scan, local_tlb_get}
use hdu_cpu_lab.Sv39.Coherent.{IsCoherent}
use hdu_cpu_lab.Sv39.Flush.{rv_sv39-IsCoherent, sfence_vma-IsCoherent}
use hdu_cpu_lab.Sv39.Translate.{Serves, local_tlbe_get-Serves}
use hdu_cpu_lab.Examples.{memory, bus}

abbrev paged_bus : Bus Mem
paged_bus = record bus {
  dev = λ _. record memory {
    cell = λ k. get_or (0xcf ∷ 0x00 ∷ 0x00 ∷ 0x20 ∷ 0 ∷ 0 ∷ 0 ∷ 0 ∷ []) k 0;
  };
}

paged_bus-IsFlat : IsFlat paged_bus
paged_bus-IsFlat = record {
  ordered = (omega arith, (omega arith, omega arith, refl), tt);
  offsets = λ e h. elim h [ inl q ↦ cc | inr q ↦ absurd q ];
  bounded = λ k. refl;
  once =
      λ e f h g q. elim h [ inl x ↦ elim g [ inl y ↦ cc | inr y ↦ absurd y ] | inr x ↦ absurd x ];
}

abbrev satp : ℕ
satp = 8 * 2 ^ 60 + 3 * 2 ^ 44 + 0x80000

-- An entry as it may lie in memory before the constructor runs.
abbrev stale : TlbEntry
stale = record {
  ppa = 0x4000;
  vpa = 0;
  asid = 3;
  pagesize = 3;
  r = true;
  w = true;
  x = true;
  u = true;
  g = false;
  a = true;
  d = true;
}

abbrev paged : Mmu Mem
paged = record { sv39 = rv_sv39 (stale ∷ stale ∷ []); bus = paged_bus }

abbrev target : Ran (Mmu Mem) (Option TlbEntry) → Option ℕ
target (ret (some e) m) = some e.ppa
target _ = none

paged_target : target (local_tlbe_get satp 0x1234 paged) ≡ some 0x80000000
unfolding local_tlbe_get local_tlb_get scan ptw walk refill pa_read route before_upper do_read
    read_bytes from_bytes rv_sv39 within
paged_target = refl

local_tlbe_get-Serves_example : Serves satp 0x1234 paged
local_tlbe_get-Serves_example =
    local_tlbe_get-Serves satp 0x1234 paged paged_bus-IsFlat refl (omega arith) refl
      (rv_sv39-IsCoherent paged_bus satp (stale ∷ stale ∷ []) (omega arith))

abbrev outdated : Sv39
outdated = record { random = 1; tlb = stale ∷ stale ∷ [] }

sfence_vma-IsCoherent_example : IsCoherent paged_bus satp (sfence_vma 0 0 outdated)
sfence_vma-IsCoherent_example =
    sfence_vma-IsCoherent paged_bus satp 0 0 outdated (inr (omega arith, refl, refl))
