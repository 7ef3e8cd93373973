-- ===== src/Priv/Invariant.antt =====
-- What holds of the registers from `reset` on.
use hdu_cpu_lab.Common.{ℕ, ◌≡◌, ◌⊎◌, Bool, true, false, ◌&&◌, ◌||◌, arith, ◌==◌, if◌then◌else◌}
use hdu_cpu_lab.Priv.Codes.{
  u_mode, m_mode, mie, mpie, mprv, sie, spie, spp, bit, set_bit, mpp_of, set_mpp, blank0, blank1,
  blank2, blank3, blank4,
}
use hdu_cpu_lab.Priv.Registers.{Config, Csrs, reset}
use hdu_cpu_lab.Priv.CsrFile.{write_mstatus}

-- User or machine mode.
abbrev pub IsMode : ℕ → Type 0
IsMode m = (m ≡ u_mode) ⊎ (m ≡ m_mode)

-- A value of mstatus: the reserved fields are 0, so is `spp`, and `mpp` is user or machine mode.
pub record IsStatus (s : ℕ) : Type 0 where
  pub b0 : blank0 s ≡ 0
  pub b1 : blank1 s ≡ 0
  pub b2 : blank2 s ≡ 0
  pub b3 : blank3 s ≡ 0
  pub b4 : blank4 s ≡ 0
  pub spp_user : bit s spp ≡ 0
  pub mpp_mode : IsMode (mpp_of s)

-- The registers: nothing is delegated, translation is off, and supervisor mode is not entered.
pub record IsSane (c : Csrs) : Type 0 where
  pub medeleg_zero : c.medeleg ≡ 0
  pub mideleg_zero : c.mideleg ≡ 0
  pub satp_zero : c.satp ≡ 0
  pub cur_mode : IsMode c.cur_priv
  pub next_mode : IsMode c.next_priv
  pub status_ok : IsStatus c.status

pub reset-IsSane : (config : Config) (hart_id old_misa : ℕ) → IsSane (reset config hart_id old_misa)
unfolding reset
reset-IsSane config hart_id old_misa = ground arith

-- The fields of mstatus are apart: writing one keeps the others.
abbrev KeepsStatus : (ℕ → ℕ → ℕ) → Type 0
KeepsStatus put = (s v : ℕ) → IsStatus s → IsStatus (put s v)

pub set_mie-IsStatus : KeepsStatus (λ s v. set_bit s mie v)
set_mie-IsStatus s v h = ground arith

pub set_mpie-IsStatus : KeepsStatus (λ s v. set_bit s mpie v)
set_mpie-IsStatus s v h = ground arith

pub set_mprv-IsStatus : KeepsStatus (λ s v. set_bit s mprv v)
set_mprv-IsStatus s v h = ground arith

pub set_sie-IsStatus : KeepsStatus (λ s v. set_bit s sie v)
set_sie-IsStatus s v h = ground arith

pub set_spie-IsStatus : KeepsStatus (λ s v. set_bit s spie v)
set_spie-IsStatus s v h = ground arith

pub clear_spp-IsStatus : (s : ℕ) → IsStatus s → IsStatus (set_bit s spp u_mode)
clear_spp-IsStatus s h = ground arith

pub set_mpp-IsStatus : (s p : ℕ) → IsMode p → IsStatus s → IsStatus (set_mpp s p)
set_mpp-IsStatus s p m h = ground arith

-- What a trap, a write of mstatus and the two returns do to mstatus.
pub trapping-IsStatus :
    (s p v : ℕ) → IsMode p → IsStatus s → IsStatus (set_mpp (set_bit (set_bit s mpie v) mie 0) p)
trapping-IsStatus s p v m h =
    set_mpp-IsStatus _ p m (set_mie-IsStatus _ 0 (set_mpie-IsStatus s v h))

chosen-IsMode : (a b : ℕ) → IsMode b → IsMode (if a == 3 || a == 0 then a else b)
chosen-IsMode a b h = ground arith

pub write_mstatus-IsStatus :
    (config : Config) (s v : ℕ) → IsStatus s → IsStatus (write_mstatus config s v)
unfolding write_mstatus
write_mstatus-IsStatus config s v h = go (config.only_mode_m && config.run_riscv_test)
  where
    t : ℕ
    t = set_bit (set_bit s mie (bit v mie)) mpie (bit v mpie)

    ok : IsStatus t
    ok = set_mpie-IsStatus _ (bit v mpie) (set_mie-IsStatus s (bit v mie) h)

    chosen : ℕ
    chosen = if mpp_of v == 3 || mpp_of v == 0 then mpp_of v else mpp_of t

    go : (b : Bool) → IsStatus (if b then t else set_bit (set_mpp t chosen) mprv (bit v mprv))
    go true = ok
    go false =
        set_mprv-IsStatus _ (bit v mprv)
          (set_mpp-IsStatus t chosen (chosen-IsMode (mpp_of v) (mpp_of t) ok.mpp_mode) ok)

pub returning-IsStatus :
    (s : ℕ) (keep : Bool) → IsStatus s → IsStatus (if keep then set_bit s mprv 0 else s)
returning-IsStatus s true h = set_mprv-IsStatus s 0 h
returning-IsStatus s false h = h
