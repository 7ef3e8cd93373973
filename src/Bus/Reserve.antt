-- ===== src/Bus/Reserve.antt =====
-- Load-reserved and store-conditional of difftest/src/rv_systembus.hpp.
use hdu_cpu_lab.Common.{
  ℕ, ◌+◌, ◌^◌, ◌<◌, ◌≡◌, refl, inl, inr, Bool, true, false, not, ◌&&◌, Option, none, some, List,
  length, arith, ◌∙◌, sym, Option-cases, Bool-cases, ◌==◌, if◌then◌else◌,
}
use hdu_cpu_lab.Common.Run.{ret, ◌>>=◌, >>=-inv}
use hdu_cpu_lab.Device.{Outcome, done, refused, fault, MmioDev}
use hdu_cpu_lab.Bus.{
  Bus, route, pa_read, routed_write, pa_write, pa_lr, pa_sc, drop_reservation, answer_read,
  answer_write, device_addr,
}

-- The reservation of `c` is that of `b`, but that it holds only if `keep` is true.
pub record Keeps {D : Type 0} (keep : Bool) (b c : Bus D) : Type 0 where
  pub pa : c.lr_pa ≡ b.lr_pa
  pub size : c.lr_size ≡ b.lr_size
  pub hart : c.lr_hart ≡ b.lr_hart
  pub valid : c.lr_valid ≡ (b.lr_valid && keep)

module _ {D : Type 0} where
  answer_read-Keeps :
      (b : Bus D) (k : ℕ) (out : Outcome (List ℕ × D)) {r : Option (List ℕ)} {c : Bus D}
      → answer_read b k out ≡ ret r c
      → Keeps true b c
  answer_read-Keeps b k (done (bytes, d)) h = ground arith
  answer_read-Keeps b k refused h = ground arith
  answer_read-Keeps b k fault h = cc

  answer_write-Keeps :
      (b : Bus D) (k : ℕ) (out : Outcome D) {r : Bool} {c : Bus D}
      → answer_write b k out ≡ ret r c
      → Keeps true b c
  answer_write-Keeps b k (done d) h = ground arith
  answer_write-Keeps b k refused h = ground arith
  answer_write-Keeps b k fault h = cc

  drop_reservation-Keeps :
      (a n : ℕ) (b : Bus D)
      → a + n < 2 ^ 64
      → b.lr_pa + n < 2 ^ 64
      → Keeps (not (a == b.lr_pa)) b (drop_reservation b a n)
  drop_reservation-Keeps a n b p q = ground arith

  Keeps-trans : {k : Bool} {b c d : Bus D} → Keeps k b c → Keeps true c d → Keeps k b d
  Keeps-trans {k} {b} {c} {d} h g = ground arith

module _ {D : Type 0} ⦃i : MmioDev D⦄ where
  -- Reading leaves the reservation as it is.
  pub pa_read-Keeps :
      (a n : ℕ) (b : Bus D) {r : Option (List ℕ)} {c : Bus D}
      → pa_read a n b ≡ ret r c
      → Keeps true b c
  unfolding pa_read
  pa_read-Keeps a n b {c = c} h = elim (Option-cases (route b.devices a n)) [
    | inl e ↦ ground arith
    | inr (x, e) ↦
        answer_read-Keeps b x.dev (i.do_read (b.dev x.dev) (device_addr x a) n)
          (rw (e, pa_read) at h)
  ]

  routed_write-Keeps :
      (a : ℕ) (bs : List ℕ) (b : Bus D) {ok : Bool} {c : Bus D}
      → routed_write a bs b ≡ ret ok c
      → Keeps true b c
  unfolding routed_write
  routed_write-Keeps a bs b {c = c} h = elim (Option-cases (route b.devices a (length bs))) [
    | inl e ↦ ground arith
    | inr (x, e) ↦
        answer_write-Keeps b x.dev (i.do_write (b.dev x.dev) (device_addr x a) bs)
          (rw (e, routed_write) at h)
  ]

  -- A write that comes back, and that does not reach 2 ^ 64 from its own or from the reserved address,
  -- drops the reservation exactly when it starts at the reserved address, whatever its size.
  pub pa_write-Keeps :
      (a : ℕ) (bs : List ℕ) (b : Bus D) {ok : Bool} {c : Bus D}
      → a + length bs < 2 ^ 64
      → b.lr_pa + length bs < 2 ^ 64
      → pa_write a bs b ≡ ret ok c
      → Keeps (not (a == b.lr_pa)) b c
  unfolding pa_write
  pa_write-Keeps a bs b p q h =
      Keeps-trans (drop_reservation-Keeps a (length bs) b p q)
        (routed_write-Keeps a bs (drop_reservation b a (length bs)) h)

  -- A store-conditional that finds the reservation of its hart at its address and of its size comes to
  -- the write itself, with the reservation spent.
  pub pa_sc-hit :
      (pa : ℕ) (bs : List ℕ) (hart_id : ℕ) (b : Bus D)
      → b.lr_valid ≡ true
      → b.lr_pa ≡ pa
      → b.lr_size ≡ length bs
      → b.lr_hart ≡ hart_id
      → pa_sc pa bs hart_id b
        ≡ (pa_write pa bs >>= λ ok. ret (if ok then some false else none))
            (record b { lr_valid = false })
  unfolding pa_sc
  pa_sc-hit pa bs hart_id b v e f g = ground arith

  -- After a load-reserved that comes back, a store-conditional of the same hart, address and size
  -- comes to the write itself, with the reservation spent.
  pub pa_sc-pa_lr :
      (pa : ℕ) (bs : List ℕ) (hart_id : ℕ) (b : Bus D) {r : Option (List ℕ)} {c : Bus D}
      → pa_lr pa (length bs) hart_id b ≡ ret r c
      → pa_sc pa bs hart_id c
        ≡ (pa_write pa bs >>= λ ok. ret (if ok then some false else none))
            (record c { lr_valid = false })
  unfolding pa_lr
  pa_sc-pa_lr pa bs hart_id b {c = c} h =
      let k =
        pa_read-Keeps pa (length bs)
          (record b { lr_pa = pa; lr_size = length bs; lr_valid = true; lr_hart = hart_id }) h in
      pa_sc-hit pa bs hart_id c k.valid k.pa k.size k.hart

  -- A store-conditional without a valid reservation of its hart at its address and of its size fails
  -- and touches no device; it ends the reservation if that is its hart's.
  pa_sc-miss :
      (pa : ℕ) (bs : List ℕ) (hart_id : ℕ) (b : Bus D)
      → ¬ ((b.lr_valid ≡ true) × (b.lr_pa ≡ pa) × (b.lr_size ≡ length bs) × (b.lr_hart ≡ hart_id))
      → pa_sc pa bs hart_id b
        ≡ ret (some true) (record b { lr_valid = b.lr_valid && not (hart_id == b.lr_hart) })
  unfolding pa_sc
  pa_sc-miss pa bs hart_id b h = ground arith

  -- Afterwards the hart holds no reservation.
  pa_sc-spends :
      (pa : ℕ) (bs : List ℕ) (hart_id : ℕ) (b : Bus D) {r : Option Bool} {c : Bus D}
      → pa + length bs < 2 ^ 64
      → pa_sc pa bs hart_id b ≡ ret r c
      → ¬ ((c.lr_valid ≡ true) × (c.lr_hart ≡ hart_id))
  unfolding pa_sc
  pa_sc-spends pa bs hart_id b {r} {c} p h =
      elim (Bool-cases
        (b.lr_valid && (b.lr_pa == pa) && (b.lr_size == length bs) && (b.lr_hart == hart_id))) [
          | inl m ↦
              let hit =
                pa_sc-hit pa bs hart_id b (ground arith) (ground arith) (ground arith)
                  (ground arith) in
              let (ok, t, w, e) =
                >>=-inv (pa_write pa bs) (λ ok. ret (if ok then some false else none))
                  (record b { lr_valid = false }) (sym hit ∙ h) in
              let keeps = pa_write-Keeps pa bs (record b { lr_valid = false }) p (ground arith) w in
              ground arith
          | inr m ↦ let miss = pa_sc-miss pa bs hart_id b (ground arith) in ground arith
        ]

  -- After a store-conditional that comes back and does not reach 2 ^ 64, whatever it did, another one of
  -- the same hart fails, at any address and of any size, and touches no device.
  pub pa_sc_once :
      (pa : ℕ) (bs : List ℕ) (hart_id : ℕ) (b : Bus D) {r : Option Bool} {c : Bus D}
      → pa + length bs < 2 ^ 64
      → pa_sc pa bs hart_id b ≡ ret r c
      → (pa' : ℕ) (bs' : List ℕ)
      → (c' : Bus D) × (pa_sc pa' bs' hart_id c ≡ ret (some true) c')
        × (c'.dev ≡ c.dev)
        × (c'.devices ≡ c.devices)
  pa_sc_once pa bs hart_id b {c = c} p h pa' bs' = (
    record c { lr_valid = c.lr_valid && not (hart_id == c.lr_hart) },
    pa_sc-miss pa' bs' hart_id c (λ m. pa_sc-spends pa bs hart_id b p h (m.0, m.3)),
    refl,
    refl,
  )
