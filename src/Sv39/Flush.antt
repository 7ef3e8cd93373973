-- ===== src/Sv39/Flush.antt =====
-- What sfence_vma and the constructor of difftest/src/rv_sv39.hpp leave in the TLB.
use hdu_cpu_lab.Common.{
  ℕ, zero, suc, ◌<◌, ◌≡◌, refl, ◌⊎◌, inl, inr, true, false, some, List, [], ◌∷◌, map, arith, sym,
  ap, ◌∙◌, length, get_elem?,
}
use mathlib.Core.Bool.{false≢true}
use mathlib.Core.Option.{some_inj}
use hdu_cpu_lab.Device.Mem.{Mem}
use hdu_cpu_lab.Bus.{Bus}
use hdu_cpu_lab.Sv39.Tlb.{TlbEntry, Sv39, invalid, fence_entry, sfence_vma, translates, rv_sv39}
use hdu_cpu_lab.Sv39.Fields.{satp_asid}
use hdu_cpu_lab.Sv39.Coherent.{IsCoherent}

length-map {ℓ κ} :
    {A : Type ℓ} {B : Type κ} (f : A → B) (xs : List A) → length (map f xs) ≡ length xs
length-map f [] = refl
length-map f (x ∷ xs) = ap suc (length-map f xs)

get_elem?-map {ℓ κ} :
    {A : Type ℓ} {B : Type κ} (f : A → B) (xs : List A) (k : ℕ) (y : B)
    → get_elem? (map f xs) k ≡ some y
    → (x : A) × (get_elem? xs k ≡ some x) × (f x ≡ y)
get_elem?-map f [] k y h = absurd (cc)
get_elem?-map f (x ∷ xs) zero y h = (x, refl, some_inj.0 h)
get_elem?-map f (x ∷ xs) (suc k) y h = get_elem?-map f xs k y h

invalid-translates : (asid va : ℕ) (e : TlbEntry) → translates asid va (invalid e) ≡ false
invalid-translates asid va e = ground arith

fence_entry-cases :
    (vaddr asid : ℕ) (e : TlbEntry)
    → (fence_entry vaddr asid e ≡ e) ⊎ (fence_entry vaddr asid e ≡ invalid e)
fence_entry-cases vaddr asid e = ground arith

-- An entry that still translates an address is one from before the fence.
survivor :
    (vaddr asid asid' va k : ℕ) (e : TlbEntry) (s : Sv39)
    → get_elem? (sfence_vma vaddr asid s).tlb k ≡ some e
    → translates asid' va e ≡ true
    → get_elem? s.tlb k ≡ some e
unfolding sfence_vma
survivor vaddr asid asid' va k e s h t =
    let (x, p, q) = get_elem?-map (fence_entry vaddr asid) s.tlb k e h in
    elim (fence_entry-cases vaddr asid x) [
      | inl same ↦ p ∙ ap some (sym same ∙ q)
      | inr gone ↦
          let n = invalid-translates asid' va x in
          let w = ap (translates asid' va) (sym q ∙ gone) in cc
    ]

-- A TLB that translates nothing agrees with any page tables.
empty-IsCoherent :
    (b : Bus Mem) (satp : ℕ) (s : Sv39)
    → s.random < length s.tlb
    → ((k va : ℕ) (e : TlbEntry)
        → get_elem? s.tlb k ≡ some e
        → translates (satp_asid satp) va e ≡ false)
    → IsCoherent b satp s
empty-IsCoherent b satp s r none_of = record {
  room = r;
  sound = λ k e va h low t. absurd (false≢true (sym (none_of k va e h) ∙ t));
  single = λ j k e f va h _ low t _. absurd (false≢true (sym (none_of j va e h) ∙ t));
}

-- The TLB of a new object agrees with any page tables.
pub rv_sv39-IsCoherent :
    (b : Bus Mem) (satp : ℕ) (uninitialised : List TlbEntry)
    → 0 < length uninitialised
    → IsCoherent b satp (rv_sv39 uninitialised)
unfolding rv_sv39
rv_sv39-IsCoherent b satp uninitialised r =
    empty-IsCoherent b satp (rv_sv39 uninitialised) (rw (length-map invalid uninitialised) r)
      (λ k va e h.
        let (x, _, q) = get_elem?-map invalid uninitialised k e h in
        ap (translates (satp_asid satp) va) (sym q) ∙ invalid-translates (satp_asid satp) va x)

fence_all : (e : TlbEntry) → fence_entry 0 0 e ≡ invalid e
fence_all e = ground arith

-- A fence, for whatever address and address space, keeps the agreement of the TLB with the page
-- tables; a fence for all addresses and all address spaces brings it about, whatever the TLB held
-- before and whatever the page tables are now.
pub sfence_vma-IsCoherent :
    (b : Bus Mem) (satp vaddr asid : ℕ) (s : Sv39)
    → IsCoherent b satp s ⊎ (s.random < length s.tlb) × (vaddr ≡ 0) × (asid ≡ 0)
    → IsCoherent b satp (sfence_vma vaddr asid s)
unfolding sfence_vma
sfence_vma-IsCoherent b satp vaddr asid s (inl c) =
    let asid' = satp_asid satp in
    record {
      room = rw (length-map (fence_entry vaddr asid) s.tlb) c.room;
      sound = λ k e va h low t. c.sound k e va (survivor vaddr asid asid' va k e s h t) low t;
      single = λ j k e f va h i low t u.
          c.single j k e f va (survivor vaddr asid asid' va j e s h t)
            (survivor vaddr asid asid' va k f s i u) low t u;
    }
sfence_vma-IsCoherent b satp vaddr asid s (inr (r, v, a)) =
    rw (v, a)
      (empty-IsCoherent b satp (sfence_vma 0 0 s) (rw (length-map (fence_entry 0 0) s.tlb) r)
        (λ k va e h.
          let (x, _, q) = get_elem?-map (fence_entry 0 0) s.tlb k e h in
          ap (translates (satp_asid satp) va) (sym q ∙ fence_all x)
          ∙ invalid-translates (satp_asid satp) va x))
