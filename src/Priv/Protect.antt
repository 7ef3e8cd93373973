-- ===== src/Priv/Protect.antt =====
-- Every operation of difftest/src/rv_priv.hpp on the registers that `reset` leads to.
use hdu_cpu_lab.Common.{
  ℕ, ◌+◌, ◌≡◌, inl, refl, Bool, true, false, not, ◌||◌, arith, ltb, leb, ◌==◌, if◌then◌else◌, sym,
  ◌∙◌, subst, ap,
}
use hdu_cpu_lab.Common.Words.{u64, field}
use hdu_cpu_lab.Common.Run.{
  ret, Preserves, ret-Preserves, if-Preserves, set-Preserves, abort-Preserves,
}
use hdu_cpu_lab.Priv.Codes.{
  exc_breakpoint, exc_custom_ok, u_mode, m_mode, mie, mpie, mprv, sie, spie, spp, tsr, bit, set_bit,
  mpp_of, set_mpp, s_mode,
}
use hdu_cpu_lab.Priv.Registers.{
  Config, Csrs, raise_trap, check_and_raise_int, pre_exec, post_exec, difftest_preexec, ecall,
  ebreak, mret, sret, pending_int,
}
use hdu_cpu_lab.Priv.CsrFile.{
  csr_misa, csr_mstatus, csr_mie, csr_mtvec, csr_mcounteren, csr_mscratch, csr_mepc, csr_mcause,
  csr_mtval, csr_mip, csr_mcycle, csr_tselect, csr_tdata1, csr_write,
}
use hdu_cpu_lab.Priv.Invariant.{
  IsMode, IsStatus, IsSane, set_mie-IsStatus, set_mpie-IsStatus, set_sie-IsStatus,
  set_spie-IsStatus, returning-IsStatus, clear_spp-IsStatus, set_mpp-IsStatus,
  write_mstatus-IsStatus,
}
use hdu_cpu_lab.Priv.Trap.{raise_trap-IsTrapped}

-- A change of the other registers.
with_same-IsSane :
    (c d : Csrs)
    → IsSane c
    → d.medeleg ≡ c.medeleg
    → d.mideleg ≡ c.mideleg
    → d.satp ≡ c.satp
    → IsMode d.cur_priv
    → IsMode d.next_priv
    → IsStatus d.status
    → IsSane d
with_same-IsSane c d h e1 e2 e3 m1 m2 s = record {
  medeleg_zero = cc;
  mideleg_zero = cc;
  satp_zero = cc;
  cur_mode = m1;
  next_mode = m2;
  status_ok = s;
}

pub raise_trap-IsSane :
    (pc cause : ℕ) (i : Bool) (tval : ℕ) → Preserves IsSane (raise_trap pc cause i tval)
raise_trap-IsSane pc cause i tval c tt t h e = (raise_trap-IsTrapped pc cause i tval c t h e).sane

pub check_and_raise_int-IsSane : (pc : ℕ) → Preserves IsSane (check_and_raise_int pc)
unfolding check_and_raise_int
check_and_raise_int-IsSane pc c tt t h e = go (not (pending_int c == exc_custom_ok)) e
  where
    go :
        (b : Bool)
        → (if b then raise_trap pc (pending_int c) true 0 c else ret tt c) ≡ ret tt t
        → IsSane t
    go true k = raise_trap-IsSane pc (pending_int c) true 0 c tt t h k
    go false k = ret-Preserves IsSane tt c tt t h k

pub pre_exec-IsSane :
    (pc : ℕ) (meip msip mtip seip : Bool) → Preserves IsSane (pre_exec pc meip msip mtip seip)
unfolding pre_exec
pre_exec-IsSane pc meip msip mtip seip c tt t h e =
    check_and_raise_int-IsSane pc _ tt t
      (with_same-IsSane c _ h refl refl refl h.next_mode h.next_mode h.status_ok) e

-- On well-formed registers the assertions of `post_exec` hold: it returns, and counts the instruction
-- in minstret, modulo 2 ^ 64, unless a trap was raised.
pub post_exec-returns :
    (c : Csrs)
    → IsSane c
    → post_exec c
      ≡ ret tt (record c {
        minstret = if c.cur_need_trap then c.minstret else u64 (c.minstret + 1);
        cur_need_trap = false;
      })
unfolding post_exec
post_exec-returns c h = ground arith

pub post_exec-IsSane : Preserves IsSane post_exec
post_exec-IsSane c tt t h e =
    ret-Preserves IsSane tt _ tt t
      (with_same-IsSane c _ h refl refl refl h.cur_mode h.next_mode h.status_ok)
      (sym (post_exec-returns c h) ∙ e)

pub difftest_preexec-IsSane :
    (pua_mcycle pua_minstret pua_mip : ℕ) (c : Csrs)
    → IsSane c
    → IsSane (difftest_preexec pua_mcycle pua_minstret pua_mip c)
unfolding difftest_preexec
difftest_preexec-IsSane pua_mcycle pua_minstret pua_mip c h =
    with_same-IsSane c _ h refl refl refl h.next_mode h.next_mode h.status_ok

pub ecall-IsSane : (pc : ℕ) → Preserves IsSane (ecall pc)
unfolding ecall
ecall-IsSane pc c tt t h e = raise_trap-IsSane pc (c.cur_priv + 8) false 0 c tt t h e

pub ebreak-IsSane : (pc : ℕ) → Preserves IsSane (ebreak pc)
unfolding ebreak
ebreak-IsSane pc = raise_trap-IsSane pc exc_breakpoint false 0

pub mret-IsSane : (c : Csrs) → IsSane c → IsSane (mret c).1
unfolding mret
mret-IsSane c h = go (not (c.cur_priv == m_mode))
  where
    s : ℕ
    s = set_bit (set_bit c.status mie (bit c.status mpie)) mpie 1

    d : Csrs
    d = record c {
      status = set_mpp (if not (mpp_of s == m_mode) then set_bit s mprv 0 else s) u_mode;
      next_priv = mpp_of c.status;
      cur_need_trap = true;
      trap_pc = c.mepc;
    }

    ok : IsStatus d.status
    ok = set_mpp-IsStatus _ u_mode (inl refl) (
        returning-IsStatus s (not (mpp_of s == m_mode))
          (set_mpie-IsStatus _ 1 (set_mie-IsStatus c.status (bit c.status mpie) h.status_ok)))

    go : (x : Bool) → IsSane ((if◌then◌else◌ {A = Bool × Csrs} x (false, c) (true, d)).1)
    go true = h
    go false = with_same-IsSane c d h refl refl refl h.cur_mode h.status_ok.mpp_mode ok

pub sret-IsSane : (c : Csrs) → IsSane c → IsSane (sret c).1
unfolding sret
sret-IsSane c h = go (ltb c.cur_priv s_mode || ltb 0 (bit c.status tsr))
  where
    s : ℕ
    s = set_bit (set_bit c.status sie (bit c.status spie)) spie 1

    d : Csrs
    d = record c {
      status = set_bit (if not (bit s spp == m_mode) then set_bit s mprv 0 else s) spp u_mode;
      next_priv = bit c.status spp;
      cur_need_trap = true;
      trap_pc = c.sepc;
    }

    ok : IsStatus d.status
    ok = clear_spp-IsStatus _ (
        returning-IsStatus s (not (bit s spp == m_mode))
          (set_spie-IsStatus _ 1 (set_sie-IsStatus c.status (bit c.status spie) h.status_ok)))

    go : (x : Bool) → IsSane ((if◌then◌else◌ {A = Bool × Csrs} x (false, c) (true, d)).1)
    go true = h
    go false = with_same-IsSane c d h refl refl refl h.cur_mode (inl h.status_ok.spp_user) ok

-- The registers that `IsSane` reads.
abbrev protection : Csrs → ℕ × ℕ × ℕ × ℕ × ℕ × ℕ
protection c = (c.medeleg, c.mideleg, c.satp, c.cur_priv, c.next_priv, c.status)

other-IsSane :
    (f : Csrs → Csrs)
    → ((c : Csrs) → protection (f c) ≡ protection c)
    → Preserves IsSane (λ c. ret true (f c))
other-IsSane f same = set-Preserves IsSane true f (λ c h.
    let e = same c in
    with_same-IsSane c (f c) h (ap (λ p. p.0) e) (ap (λ p. p.1) e) (ap (λ p. p.2) e)
      (subst IsMode (sym (ap (λ p. p.3) e)) h.cur_mode)
      (subst IsMode (sym (ap (λ p. p.4) e)) h.next_mode)
      (subst IsStatus (sym (ap (λ p. p.5) e)) h.status_ok))

pub csr_write-IsSane :
    (config : Config) (csr_index csr_data : ℕ)
    → Preserves IsSane (csr_write config csr_index csr_data)
unfolding csr_write
csr_write-IsSane config i v = if-Preserves IsSane (i == csr_misa) _ _ (ret-Preserves IsSane true) (
    if-Preserves IsSane (i == csr_mstatus) _ _
      (set-Preserves IsSane true _ (λ c h.
        with_same-IsSane c _ h refl refl refl h.cur_mode h.next_mode
          (write_mstatus-IsStatus config c.status v h.status_ok)))
      (if-Preserves IsSane (i == csr_mie) _ _ (other-IsSane _ (λ c. refl)) (
        if-Preserves IsSane (i == csr_mtvec) _ _
          (if-Preserves IsSane (leb (field v 0 2) 1) _ _ (other-IsSane _ (λ c. refl))
            (abort-Preserves IsSane))
          (if-Preserves IsSane (i == csr_mcounteren) _ _ (ret-Preserves IsSane true) (
            if-Preserves IsSane (i == csr_mscratch) _ _ (other-IsSane _ (λ c. refl)) (
              if-Preserves IsSane (i == csr_mepc) _ _ (other-IsSane _ (λ c. refl)) (
                if-Preserves IsSane (i == csr_mcause) _ _ (other-IsSane _ (λ c. refl)) (
                  if-Preserves IsSane (i == csr_mtval) _ _ (other-IsSane _ (λ c. refl)) (
                    if-Preserves IsSane (i == csr_mip) _ _ (other-IsSane _ (λ c. refl)) (
                      if-Preserves IsSane (i == csr_mcycle) _ _ (other-IsSane _ (λ c. refl)) (
                        if-Preserves IsSane (i == csr_tselect) _ _ (ret-Preserves IsSane true) (
                          if-Preserves IsSane (i == csr_tdata1) _ _ (ret-Preserves IsSane true)
                            (ret-Preserves IsSane false)))))))))))))
