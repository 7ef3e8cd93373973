-- ===== src/Sv39/Refill.antt =====
-- A refill of the TLB of difftest/src/rv_sv39.hpp keeps it in agreement with the page tables.
use hdu_cpu_lab.Common.{
  ℕ, suc, ◌+◌, ◌-◌, ◌*◌, ◌%◌, ◌^◌, ◌<◌, ◌≡◌, ◌≢◌, inl, inr, true, some, arith, sym, ap, ◌∙◌, subst,
  ==_refl, length, length-set, get_elem?, get_elem?-set, get_elem?-set_self, set,
}
use native.Mathlib.Nat.{mod-lt}
use hdu_cpu_lab.Device.Mem.{Mem}
use hdu_cpu_lab.Device.Mem.Laws.{mem_dev}
use hdu_cpu_lab.Bus.{Bus}
use hdu_cpu_lab.Sv39.{refill_entry, refill}
use hdu_cpu_lab.Sv39.Fields.{satp_asid}
use hdu_cpu_lab.Sv39.Tlb.{TlbEntry, Sv39, translates, hit, local_tlb_get}
use hdu_cpu_lab.Sv39.Maps.{Maps-level, Maps-unique, Maps-SamePage, SamePage}
use hdu_cpu_lab.Sv39.Lookup.{NoneOf}
use hdu_cpu_lab.Sv39.Coherent.{
  Describes, Describes-SamePage, MapsTo, IsCoherent, IsCoherent-hit, translates-page,
  page-translates, translates-space, refill_entry-Describes,
}

module _ (b : Bus Mem) (satp va pte level : ℕ) (low : va < 2 ^ 64) (m : MapsTo b satp va pte level)
    (s : Sv39) (c : IsCoherent b satp s) (none_of : NoneOf (satp_asid satp) va s.tlb) where
  abbrev pub entry : TlbEntry
  entry = refill_entry satp va pte (2 ^ 12 * 2 ^ (9 * level))

  -- The TLB after a refill.
  abbrev pub refilled : Sv39
  refilled = record { random = (s.random + 1) % length s.tlb; tlb = set s.tlb s.random entry }

  pub entry-Describes : Describes va pte level entry
  entry-Describes = refill_entry-Describes satp va pte level (Maps-level m)

  entry-page :
      (va' : ℕ)
      → va' < 2 ^ 64
      → translates (satp_asid satp) va' entry ≡ true
      → SamePage level va va'
  entry-page va' low' t =
      sym entry-Describes.page_of
      ∙ translates-page (satp_asid satp) va' low' entry level (Maps-level m) entry-Describes.size t

  entry_sound :
      (va' : ℕ)
      → va' < 2 ^ 64
      → translates (satp_asid satp) va' entry ≡ true
      → MapsTo b satp va' pte level × Describes va' pte level entry
  entry_sound va' low' t = (
    Maps-SamePage b va va' m (omega arith) (entry-page va' low' t),
    Describes-SamePage (entry-page va' low' t) entry-Describes,
  )

  -- An entry that translates an address of the new page would have translated the old one.
  old-apart :
      (k : ℕ) (f : TlbEntry) (va' : ℕ)
      → get_elem? s.tlb k ≡ some f
      → va' < 2 ^ 64
      → translates (satp_asid satp) va' f ≡ true
      → translates (satp_asid satp) va' entry ≢ true
  old-apart k f va' h low' t u =
      let (p', l', m', d') = c.sound k f va' h low' t in
      let same = (Maps-unique b va' m' (entry_sound va' low' u).0).1 in
      none_of k f h (
        page-translates (satp_asid satp) va low f level (Maps-level m) (d'.size ∙ ap suc same)
          (translates-space (satp_asid satp) va' low' f t)
          (d'.page_of ∙ ap (λ l. va' - va' % 2 ^ (12 + 9 * l)) same ∙ sym (entry-page va' low' u)))

  refilled_sound :
      (k : ℕ) (e : TlbEntry) (va' : ℕ)
      → get_elem? refilled.tlb k ≡ some e
      → va' < 2 ^ 64
      → translates (satp_asid satp) va' e ≡ true
      → (pte' : ℕ) × (level' : ℕ) × MapsTo b satp va' pte' level' × Describes va' pte' level' e
  refilled_sound k e va' h low' t = elim (get_elem?-set s.tlb s.random k entry e h) [
    | inr old ↦ c.sound k e va' old low' t
    | inl (_, new) ↦
        let (m', d') = entry_sound va' low' (ap (translates (satp_asid satp) va') (sym new) ∙ t) in
        (pte, level, m', subst (Describes va' pte level) (sym new) d')
  ]

  refilled_single :
      (j k : ℕ) (e f : TlbEntry) (va' : ℕ)
      → get_elem? refilled.tlb j ≡ some e
      → get_elem? refilled.tlb k ≡ some f
      → va' < 2 ^ 64
      → translates (satp_asid satp) va' e ≡ true
      → translates (satp_asid satp) va' f ≡ true
      → j ≡ k
  refilled_single j k e f va' p q low' t u =
      let moved = λ (x y : TlbEntry) (r : x ≡ y) (w : translates (satp_asid satp) va' x ≡ true).
        ap (translates (satp_asid satp) va') (sym r) ∙ w in
      elim (get_elem?-set s.tlb s.random j entry e p) [
        | inl (at_j, new) ↦ elim (get_elem?-set s.tlb s.random k entry f q) [
          | inl (at_k, _) ↦ at_j ∙ sym at_k
          | inr old ↦ absurd (old-apart k f va' old low' u (moved e entry new t))
        ]
        | inr old ↦ elim (get_elem?-set s.tlb s.random k entry f q) [
          | inl (_, new) ↦ absurd (old-apart j e va' old low' t (moved f entry new u))
          | inr old' ↦ c.single j k e f va' old old' low' t u
        ]
      ]

  pub refilled-IsCoherent : IsCoherent b satp refilled
  refilled-IsCoherent = record {
    room =
        let r = c.room in
        let l = length-set s.tlb s.random entry in rw l (mod-lt (s.random + 1) (omega arith));
    sound = refilled_sound;
    single = refilled_single;
  }

  refilled-entry : get_elem? refilled.tlb s.random ≡ some entry
  refilled-entry = get_elem?-set_self s.tlb s.random entry c.room

  entry-translates : translates (satp_asid satp) va entry ≡ true
  entry-translates =
      page-translates (satp_asid satp) va low entry level (Maps-level m) entry-Describes.size
        (rw (==_refl (satp_asid satp))) entry-Describes.page_of

  -- The assertion behind a refill holds.
  pub refill-finds : refill satp va pte (2 ^ 12 * 2 ^ (9 * level)) s ≡ some (entry, refilled)
  unfolding refill
  refill-finds = rw (found, refill) (rw (==_refl s.random))
    where
      found : local_tlb_get satp va refilled ≡ hit s.random
      found =
          IsCoherent-hit b satp va s.random entry refilled refilled-IsCoherent low refilled-entry
            entry-translates
