-- ===== src/Priv/Operated.antt =====
-- The registers of difftest/src/rv_priv.hpp after any sequence of its operations on them.
use hdu_cpu_lab.Common.{ℕ, ◌+◌, ◌≡◌, Bool, false, Option, none, some, if◌then◌else◌}
use hdu_cpu_lab.Common.Words.{u64}
use hdu_cpu_lab.Common.Run.{ret, Preserves, ret-Preserves}
use hdu_cpu_lab.Priv.Registers.{
  Config, Csrs, reset, raise_trap, pre_exec, post_exec, difftest_preexec, ecall, ebreak, mret, sret,
}
use hdu_cpu_lab.Priv.CsrFile.{csr_read, csr_write, csr_setbit, csr_clearbit, read_modify_write}
use hdu_cpu_lab.Priv.Invariant.{IsSane, reset-IsSane}
use hdu_cpu_lab.Priv.Protect.{
  raise_trap-IsSane, pre_exec-IsSane, post_exec-returns, post_exec-IsSane, difftest_preexec-IsSane,
  ecall-IsSane, ebreak-IsSane, mret-IsSane, sret-IsSane, csr_write-IsSane,
}

-- The registers that `reset` and calls of the operations that come back lead to.
pub data Operated (config : Config) : Csrs → Type 0 where
  resets : (hart_id old_misa : ℕ) → Operated config (reset config hart_id old_misa)
  begins :
      (pc : ℕ) (meip msip mtip seip : Bool) (c t : Csrs)
      → Operated config c
      → pre_exec pc meip msip mtip seip c ≡ ret tt t
      → Operated config t
  ends : (c t : Csrs) → Operated config c → post_exec c ≡ ret tt t → Operated config t
  imports :
      (mcycle minstret mip : ℕ) (c : Csrs)
      → Operated config c
      → Operated config (difftest_preexec mcycle minstret mip c)
  traps :
      (pc cause : ℕ) (interrupt : Bool) (tval : ℕ) (c t : Csrs)
      → Operated config c
      → raise_trap pc cause interrupt tval c ≡ ret tt t
      → Operated config t
  calls : (pc : ℕ) (c t : Csrs) → Operated config c → ecall pc c ≡ ret tt t → Operated config t
  breaks : (pc : ℕ) (c t : Csrs) → Operated config c → ebreak pc c ≡ ret tt t → Operated config t
  returns_m : (c : Csrs) → Operated config c → Operated config (mret c).1
  returns_s : (c : Csrs) → Operated config c → Operated config (sret c).1
  writes :
      (index value : ℕ) (ok : Bool) (c t : Csrs)
      → Operated config c
      → csr_write config index value c ≡ ret ok t
      → Operated config t
  sets :
      (index mask : ℕ) (ok : Bool) (c t : Csrs)
      → Operated config c
      → csr_setbit config index mask c ≡ ret ok t
      → Operated config t
  clears :
      (index mask : ℕ) (ok : Bool) (c t : Csrs)
      → Operated config c
      → csr_clearbit config index mask c ≡ ret ok t
      → Operated config t

-- Setting and clearing bits of a register.
read_modify_write-IsSane :
    (config : Config) (index : ℕ) (f : ℕ → ℕ) → Preserves IsSane (read_modify_write config index f)
read_modify_write-IsSane config index f c ok t h e = go (csr_read index c) e
  where
    go :
        (x : Option ℕ)
        → (elim x [ none ↦ ret false c | some old ↦ csr_write config index (f old) c ]) ≡ ret ok t
        → IsSane t
    go none k = ret-Preserves IsSane false c ok t h k
    go (some old) k = csr_write-IsSane config index (f old) c ok t h k

pub Operated-IsSane : (config : Config) (c : Csrs) → Operated config c → IsSane c
unfolding csr_setbit csr_clearbit
Operated-IsSane config c (resets hart_id old_misa) = reset-IsSane config hart_id old_misa
Operated-IsSane config c (begins pc meip msip mtip seip d t o e) =
    pre_exec-IsSane pc meip msip mtip seip d tt c (Operated-IsSane config d o) e
Operated-IsSane config c (ends d t o e) = post_exec-IsSane d tt c (Operated-IsSane config d o) e
Operated-IsSane config c (imports mcycle minstret mip d o) =
    difftest_preexec-IsSane mcycle minstret mip d (Operated-IsSane config d o)
Operated-IsSane config c (traps pc cause interrupt tval d t o e) =
    raise_trap-IsSane pc cause interrupt tval d tt c (Operated-IsSane config d o) e
Operated-IsSane config c (calls pc d t o e) = ecall-IsSane pc d tt c (Operated-IsSane config d o) e
Operated-IsSane config c (breaks pc d t o e) =
    ebreak-IsSane pc d tt c (Operated-IsSane config d o) e
Operated-IsSane config c (returns_m d o) = mret-IsSane d (Operated-IsSane config d o)
Operated-IsSane config c (returns_s d o) = sret-IsSane d (Operated-IsSane config d o)
Operated-IsSane config c (writes index value ok d t o e) =
    csr_write-IsSane config index value d ok c (Operated-IsSane config d o) e
Operated-IsSane config c (sets index mask ok d t o e) =
    read_modify_write-IsSane config index _ d ok c (Operated-IsSane config d o) e
Operated-IsSane config c (clears index mask ok d t o e) =
    read_modify_write-IsSane config index _ d ok c (Operated-IsSane config d o) e

-- Whatever sequence of resets, starts and ends of instructions, imported counters, traps, calls, breaks,
-- returns, and writes of any CSR with any value has come back, the assertions of `post_exec` on the
-- reserved fields of mstatus hold: it returns, and counts the instruction in minstret, modulo 2 ^ 64,
-- unless a trap was raised.
pub post_exec-Operated :
    (config : Config) (c : Csrs)
    → Operated config c
    → post_exec c
      ≡ ret tt (record c {
        minstret = if c.cur_need_trap then c.minstret else u64 (c.minstret + 1);
        cur_need_trap = false;
      })
post_exec-Operated config c o = post_exec-returns c (Operated-IsSane config c o)
