-- ===== src/Examples/Buses.antt =====
-- The bus of the machine of Examples.antt, its memory, a CLINT and a TLB.
use hdu_cpu_lab.Common.{
  ltb, set, ℕ, ◌*◌, ◌+◌, ◌-◌, ◌^◌, ◌≤◌, ◌≡◌, ◌⊎◌, ◌↔◌, inl, inr, refl, true, false, List, [], ◌∷◌,
  none, some, arith, if◌then◌else◌,
}
use hdu_cpu_lab.Common.Bytes.{read_bytes}
use hdu_cpu_lab.Common.Run.{Ran, ret, abort, exits, ◌>>=◌}
use hdu_cpu_lab.Device.{done, fault}
use hdu_cpu_lab.Device.Mem
use hdu_cpu_lab.Device.Mem.{load_binary}
use hdu_cpu_lab.Device.Mem.Laws.{mem_dev, do_read-do_write, load_binary-overruns}
use hdu_cpu_lab.Device.Plic.{Plic, get_int}
use hdu_cpu_lab.Device.Plic.Complete.{Claims, claim-Claims}
use hdu_cpu_lab.Device.Plic.Claim.{Best, get_int-Best}
use hdu_cpu_lab.Bus.{Bus, route, pa_read, routed_write, pa_write, pa_lr, pa_sc, add_dev}
use hdu_cpu_lab.Bus.Table.{before_upper}
use hdu_cpu_lab.Bus.Order.{In, Ordered}
use hdu_cpu_lab.Bus.AddDev.{Added, new_entry, add_dev-Added}
use hdu_cpu_lab.Bus.Route.{route_iff, route_top}
use hdu_cpu_lab.Bus.Access.{IsFlat, Wrote, pa_write-Wrote}
use hdu_cpu_lab.Bus.FlatRead.{Delivers, pa_read-Delivers}
use hdu_cpu_lab.Bus.Amo.{to_write, amomax, amomin, amomaxu, amominu}
use hdu_cpu_lab.Bus.Amo.Extremes.{stores_extreme}
use hdu_cpu_lab.Bus.Reserve.{Keeps, pa_write-Keeps, pa_sc-pa_lr, pa_sc_once}
use hdu_cpu_lab.Sv39.Tlb.{Sv39, sfence_vma, local_tlb_get, miss}
use hdu_cpu_lab.Sv39.Fence.{sfence_vma-misses}
use hdu_cpu_lab.Examples.{memory, entry, bus}

bus-Ordered : Ordered bus.devices
bus-Ordered = (omega arith, (omega arith, omega arith, refl), tt)

pub bus-IsFlat : IsFlat bus
bus-IsFlat = record {
  ordered = bus-Ordered;
  offsets = λ e h. elim h [ inl q ↦ cc | inr q ↦ absurd q ];
  bounded = λ k. refl;
  once =
      λ e f h g q. elim h [ inl x ↦ elim g [ inl y ↦ cc | inr y ↦ absurd y ] | inr x ↦ absurd x ];
}

route_iff_example :
    (route bus.devices 0x80000004 8 ≡ some entry)
    ↔ (In entry bus.devices × (0x80000000 ≤ 0x80000004) × (0x80000004 + 8 ≤ 0x80000010))
route_iff_example = route_iff bus.devices 0x80000004 8 entry bus-Ordered (omega arith) (omega arith)

add_dev-Added_example :
    Added bus (new_entry bus 0x80000010 16 1 false) 16 (add_dev 0x80000010 16 1 false bus)
add_dev-Added_example =
    add_dev-Added bus 0x80000010 16 1 false bus-Ordered (omega arith) (omega arith)

pa_write-Wrote_example : Wrote bus 0x80000004 (1 ∷ 2 ∷ [])
pa_write-Wrote_example =
    pa_write-Wrote bus bus-IsFlat 0x80000004 (1 ∷ 2 ∷ []) (omega arith) (omega arith)

pa_read-Delivers_example : Delivers bus 0x80000004 4
pa_read-Delivers_example = pa_read-Delivers bus bus-IsFlat 0x80000004 4 (omega arith) (omega arith)

-- A write of four bytes at the reserved address.
abbrev reserved : Bus Mem.Mem
reserved = record bus { lr_pa = 0x80000008; lr_size = 4; lr_hart = 0; lr_valid = true }

abbrev four : List ℕ
four = 1 ∷ 2 ∷ 3 ∷ 4 ∷ []

abbrev bus_of : {A : Type 0} → Ran (Bus Mem.Mem) A → Bus Mem.Mem
bus_of (ret a b) = b
bus_of abort = bus
bus_of (exits n) = bus

abbrev overwritten : Bus Mem.Mem
overwritten = bus_of (pa_write 0x80000008 four reserved)

pa_write-Keeps_example : Keeps false reserved overwritten
unfolding pa_write routed_write route before_upper Mem.do_write
pa_write-Keeps_example =
    pa_write-Keeps 0x80000008 four reserved {ok = true} (omega arith) (omega arith) refl

abbrev loaded_reserved : Bus Mem.Mem
loaded_reserved = bus_of (pa_lr 0x80000008 4 0 bus)

pa_sc-pa_lr_example :
    pa_sc 0x80000008 four 0 loaded_reserved
    ≡ (pa_write 0x80000008 four >>= λ ok. ret (if ok then some false else none))
        (record loaded_reserved { lr_valid = false })
unfolding pa_lr pa_read route before_upper Mem.do_read
pa_sc-pa_lr_example =
    pa_sc-pa_lr 0x80000008 four 0 bus {r = some (read_bytes memory.cell 8 4)} {c = loaded_reserved}
      refl

abbrev stored_once : Bus Mem.Mem
stored_once = bus_of (pa_sc 0x80000008 four 0 reserved)

pa_sc_once_example :
    (c : Bus Mem.Mem) × (pa_sc 0x80000000 four 0 stored_once ≡ ret (some true) c)
    × (c.dev ≡ stored_once.dev)
    × (c.devices ≡ stored_once.devices)
unfolding pa_sc pa_write routed_write route before_upper Mem.do_write
pa_sc_once_example =
    pa_sc_once 0x80000008 four 0 reserved {r = some false} {c = stored_once} (omega arith) refl
      0x80000000 four

do_read-do_write_example :
    (m : Mem.Mem) × (Mem.do_write memory 8 four ≡ done m)
    × (Mem.do_read m 8 4 ≡ done (four, m))
    × ((c n : ℕ)
        → c + n ≤ 16
        → (c + n ≤ 8) ⊎ (12 ≤ c)
        → Mem.do_read m c n ≡ done (read_bytes memory.cell c n, m))
do_read-do_write_example = do_read-do_write memory 8 four (omega arith) (omega arith)

load_binary-overruns_example : load_binary memory 13 four ≡ fault
load_binary-overruns_example =
    load_binary-overruns memory 13 four (omega arith) (omega arith) (omega arith) (omega arith)

route_top_example : route (entry ∷ []) (2 ^ 64 - 8) 8 ≡ some entry
unfolding before_upper
route_top_example = route_top (entry ∷ []) entry refl (omega arith)

abbrev tlb : Sv39
tlb = record {
  random = 0;
  tlb =
      record {
        ppa = 0x80000000;
        vpa = 0x4000;
        asid = 3;
        pagesize = 1;
        r = true;
        w = true;
        x = true;
        u = true;
        g = false;
        a = true;
        d = true;
      }
      ∷ [];
}

sfence_vma-misses_example : local_tlb_get (3 * 2 ^ 44) 0x4008 (sfence_vma 0x4008 0 tlb) ≡ miss
sfence_vma-misses_example = sfence_vma-misses (3 * 2 ^ 44) 0x4008 tlb

stores_extreme_example :
    (to_write amomax 1 (2 ^ 64 - 1) ≡ some 1)
    × (to_write amomin 1 (2 ^ 64 - 1) ≡ some (2 ^ 64 - 1))
    × (to_write amomaxu 1 (2 ^ 64 - 1) ≡ some (2 ^ 64 - 1))
    × (to_write amominu 1 (2 ^ 64 - 1) ≡ some 1)
stores_extreme_example = stores_extreme 1 (2 ^ 64 - 1) (omega arith) (omega arith)

abbrev plic : Plic
plic = record {
  nr_source = 1;
  nr_context = 1;
  priority = 0 ∷ 3 ∷ [];
  pending = 2 ∷ [];
  enable = (2 ∷ []) ∷ [];
  threshold = 0 ∷ [];
  claim = 0 ∷ [];
  claimed = 0 ∷ [];
}

get_int-Best_example :
    (s : ℕ) × (get_int plic 0 ≡ done (ltb 0 s, record plic { claim = set plic.claim 0 s }))
    × Best plic 0 1 1 0 0 s
get_int-Best_example = get_int-Best plic 0 (omega arith)

abbrev fired : Plic
fired = record plic { claim = 1 ∷ [] }

claim-Claims_example : Claims fired 0 1
claim-Claims_example =
    claim-Claims fired 0 (omega arith) (omega arith) (omega arith) (omega arith) (omega arith) refl
