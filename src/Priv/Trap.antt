-- ===== src/Priv/Trap.antt =====
-- Traps and returns of difftest/src/rv_priv.hpp on registers that `reset` leads to.
use hdu_cpu_lab.Common.{
  ℕ, ◌^◌, ◌≡◌, inr, refl, Bool, true, false, ◌&&◌, arith, ltb, ◌==◌, if◌then◌else◌,
}
use native.Mathlib.Nat.{zero-div}
use hdu_cpu_lab.Common.Words.{field, test_bit}
use hdu_cpu_lab.Common.Run.{ret, abort, checked-Preserves}
use hdu_cpu_lab.Priv.Codes.{exc_instr_pgfault, m_mode, mie, mpie, bit, mpp_of}
use hdu_cpu_lab.Priv.Registers.{
  Csrs, to_supervisor, cause_word, vector, trap_to_machine, trap_to_supervisor, after_trap,
  raise_trap, check_and_raise_int, mret, pending_int,
}
use hdu_cpu_lab.Priv.Invariant.{IsSane, trapping-IsStatus}

pub test_bit_zero : (i : ℕ) → test_bit 0 i ≡ false
test_bit_zero i = let z = zero-div (2 ^ i) in ground arith

-- Nothing is delegated, so every trap goes to machine mode.
to_supervisor_no : (cause : ℕ) (i : Bool) (c : Csrs) → IsSane c → to_supervisor cause i c ≡ false
to_supervisor_no cause true c h = let z = test_bit_zero cause in ground arith
to_supervisor_no cause false c h = let z = test_bit_zero cause in ground arith

-- The registers after a trap to machine mode.
pub record IsTrapped (pc cause : ℕ) (i : Bool) (tval : ℕ) (c t : Csrs) : Type 0 where
  pub sane : IsSane t
  pub mode_kept : t.cur_priv ≡ c.cur_priv
  pub to_m_mode : t.next_priv ≡ m_mode
  pub needs_trap : t.cur_need_trap ≡ true
  pub epc : t.mepc ≡ pc
  pub cause_set : t.mcause ≡ cause_word cause i
  pub tval_set : t.mtval ≡ tval
  pub target : t.trap_pc ≡ vector c.mtvec (ltb 0 (field c.mtvec 0 2)) cause
  pub disabled : bit t.status mie ≡ 0
  pub stacked : bit t.status mpie ≡ bit c.status mie
  pub mode_stacked : mpp_of t.status ≡ c.cur_priv

trap_to_machine-IsTrapped :
    (pc cause : ℕ) (i : Bool) (tval : ℕ) (c : Csrs)
    → IsSane c
    → IsTrapped pc cause i tval c (trap_to_machine pc cause i tval c)
unfolding trap_to_machine
trap_to_machine-IsTrapped pc cause i tval c h = record {
  sane = record {
    medeleg_zero = h.medeleg_zero;
    mideleg_zero = h.mideleg_zero;
    satp_zero = h.satp_zero;
    cur_mode = h.cur_mode;
    next_mode = inr refl;
    status_ok = trapping-IsStatus c.status c.cur_priv (bit c.status mie) h.cur_mode h.status_ok;
  };
  mode_kept = refl;
  to_m_mode = refl;
  needs_trap = refl;
  epc = refl;
  cause_set = refl;
  tval_set = refl;
  target = refl;
  disabled = omega arith;
  stacked = omega arith;
  mode_stacked = ground arith;
}

-- On well-formed registers a call of `raise_trap` that comes back leads to machine mode: mepc, mcause
-- and mtval are those of the trap, the next pc comes from mtvec, with an offset of four times the
-- cause in vectored mode, interrupts are off, and mstatus stacks the enable bit and the mode. The
-- registers stay well formed.
pub raise_trap-IsTrapped :
    (pc cause : ℕ) (i : Bool) (tval : ℕ) (c t : Csrs)
    → IsSane c
    → raise_trap pc cause i tval c ≡ ret tt t
    → IsTrapped pc cause i tval c t
unfolding raise_trap trap_to_machine
raise_trap-IsTrapped pc cause i tval c t h e =
    go c.cur_need_trap (to_supervisor cause i c) (to_supervisor_no cause i c h) e
  where
    m : Csrs
    m = trap_to_machine pc cause i tval c

    go :
        (x y : Bool)
        → y ≡ false
        → (if x
            then abort
            else if y
            then after_trap cause tval (trap_to_supervisor pc cause i tval c)
            else after_trap cause tval m)
          ≡ ret tt t
        → IsTrapped pc cause i tval c t
    go true y n k = cc
    go false true n k = cc
    go false false n k =
        checked-Preserves (IsTrapped pc cause i tval c)
          (cause == exc_instr_pgfault && tval == m.trap_pc) tt tt m t
          (trap_to_machine-IsTrapped pc cause i tval c h) k

-- The registers at the start of the next instruction.
abbrev pub next_instr : Csrs → Csrs
next_instr c = record c { cur_priv = c.next_priv; cur_need_trap = false }

-- The registers after the return from a trap.
pub record IsResumed (pc : ℕ) (c u : Csrs) : Type 0 where
  pub mode_restored : u.next_priv ≡ c.cur_priv
  pub pc_restored : u.trap_pc ≡ pc
  pub redirected : u.cur_need_trap ≡ true
  pub mie_restored : bit u.status mie ≡ bit c.status mie

-- An `mret` at the start of the next instruction after a trap is legal, and leads back to the pc and
-- the mode in which the trap was raised, with the interrupt enable bit as it was.
pub mret_resumes :
    (pc cause : ℕ) (i : Bool) (tval : ℕ) (c t : Csrs)
    → IsTrapped pc cause i tval c t
    → (mret (next_instr t)).0 ≡ true × IsResumed pc c (mret (next_instr t)).1
unfolding mret
mret_resumes pc cause i tval c t h = ground arith

-- At the start of the next instruction after a trap no interrupt is taken, whatever is pending, and
-- the registers are left as they are.
pub trapped-no_int :
    (pc cause : ℕ) (i : Bool) (tval : ℕ) (c t : Csrs)
    → IsTrapped pc cause i tval c t
    → check_and_raise_int t.trap_pc (next_instr t) ≡ ret tt (next_instr t)
unfolding check_and_raise_int pending_int
trapped-no_int pc cause i tval c t h = ground arith
