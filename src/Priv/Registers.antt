-- ===== src/Priv/Registers.antt =====
-- The registers of rv_priv in difftest/src/rv_priv.hpp, and traps.
use hdu_cpu_lab.Common.{
  ℕ, ◌+◌, ◌-◌, ◌*◌, ◌^◌, Bool, true, false, not, ◌&&◌, ◌||◌, bit_and, ltb, ◌==◌, if◌then◌else◌,
}
use hdu_cpu_lab.Common.Words.{u64, field, set_field, test_bit}
use hdu_cpu_lab.Common.Run.{Ran, ret, abort}
use hdu_cpu_lab.Priv.Codes.{
  s_mode, m_mode, u_mode, int_s_sw, int_m_sw, int_s_timer, int_m_timer, int_s_ext, int_m_ext,
  exc_instr_pgfault, exc_custom_ok, exc_breakpoint, sie, mie, spie, mpie, spp, mprv, tsr, bit,
  set_bit, mpp_of, set_mpp, blank0, blank1, blank2, blank3, blank4,
}

-- The globals of difftest/src/sim_mycpu.cpp that the processor reads.
pub record Config : Type 0 where
  pub run_riscv_test : Bool
  pub only_mode_m : Bool

-- The members of rv_priv but for the TLB and the bus. `cur_pc` refers to the pc of the core, which is
-- an argument of the functions that read it.
pub record Csrs : Type 0 where
  pub cur_priv : ℕ
  pub hart_id : ℕ
  pub cur_need_trap : Bool
  pub trap_pc : ℕ
  pub next_priv : ℕ
  pub status : ℕ
  pub misa : ℕ
  pub medeleg : ℕ
  pub mideleg : ℕ
  pub ie : ℕ
  pub mtvec : ℕ
  pub mscratch : ℕ
  pub mepc : ℕ
  pub mcause : ℕ
  pub mtval : ℕ
  pub mcounteren : ℕ
  pub ip : ℕ
  pub mcycle : ℕ
  pub minstret : ℕ
  pub stvec : ℕ
  pub sscratch : ℕ
  pub sepc : ℕ
  pub scause : ℕ
  pub stval : ℕ
  pub satp : ℕ
  pub scounteren : ℕ

-- rv_ext('i'), rv_ext('m') and rv_ext('u')
abbrev ext_im : ℕ
ext_im = 2 ^ 8 + 2 ^ 12

abbrev ext_imu : ℕ
ext_imu = 2 ^ 8 + 2 ^ 12 + 2 ^ 20

-- `reset` leaves the extensions of misa as they were, unless a RISC-V test is run.
unfoldable pub reset : Config → ℕ → ℕ → Csrs
reset config hart_id old_misa = record {
  cur_priv = m_mode;
  hart_id = hart_id;
  cur_need_trap = false;
  trap_pc = 0;
  next_priv = m_mode;
  status =
      if config.run_riscv_test
      then if config.only_mode_m then set_mpp 0 m_mode else set_field 0 32 2 2
      else 0;
  misa =
      set_field
        (set_field
          (if config.run_riscv_test
            then set_field old_misa 0 26 (if config.only_mode_m then ext_im else ext_imu)
            else old_misa)
          62 2 2)
        26 36 0;
  medeleg = 0;
  mideleg = 0;
  ie = 0;
  mtvec = 0;
  mscratch = 0;
  mepc = 0;
  mcause = 0;
  mtval = 0;
  mcounteren = 0;
  ip = 0;
  mcycle = 0;
  minstret = 0;
  stvec = 0;
  sscratch = 0;
  sepc = 0;
  scause = 0;
  stval = 0;
  satp = 0;
  scounteren = 0;
}

unfoldable pub difftest_preexec : ℕ → ℕ → ℕ → Csrs → Csrs
difftest_preexec pua_mcycle pua_minstret pua_mip c = record c {
  cur_need_trap = false;
  mcycle = pua_mcycle;
  minstret = pua_minstret;
  ip = pua_mip;
  cur_priv = c.next_priv;
}

-- The interrupt of highest priority among the bits.
unfoldable pub int2index : ℕ → ℕ
int2index int_mask =
    if test_bit int_mask int_m_ext
    then int_m_ext
    else if test_bit int_mask int_m_sw
    then int_m_sw
    else if test_bit int_mask int_m_timer
    then int_m_timer
    else if test_bit int_mask int_s_ext
    then int_s_ext
    else if test_bit int_mask int_s_sw
    then int_s_sw
    else if test_bit int_mask int_s_timer
    then int_s_timer
    else exc_custom_ok

-- A trap that was delegated; the causes are below 32.
abbrev pub to_supervisor : ℕ → Bool → Csrs → Bool
to_supervisor cause interrupt c =
    not (c.cur_priv == m_mode) && test_bit (if interrupt then c.mideleg else c.medeleg) cause

abbrev pub cause_word : ℕ → Bool → ℕ
cause_word cause interrupt = cause + (if interrupt then 2 ^ 63 else 0)

-- `base << 2`, and the offset of a vectored trap.
abbrev pub vector : ℕ → Bool → ℕ → ℕ
vector tvec vectored cause = u64 (field tvec 2 62 * 4 + (if vectored then cause * 4 else 0))

unfoldable pub trap_to_supervisor : ℕ → ℕ → Bool → ℕ → Csrs → Csrs
trap_to_supervisor pc cause interrupt tval c = record c {
  cur_need_trap = true;
  stval = tval;
  scause = cause_word cause interrupt;
  sepc = pc;
  status = set_bit (set_bit (set_bit c.status spie (bit c.status sie)) sie 0) spp c.cur_priv;
  trap_pc = vector c.stvec (field c.stvec 0 2 == 1) cause;
  next_priv = s_mode;
}

unfoldable pub trap_to_machine : ℕ → ℕ → Bool → ℕ → Csrs → Csrs
trap_to_machine pc cause interrupt tval c = record c {
  cur_need_trap = true;
  mtval = tval;
  mcause = cause_word cause interrupt;
  mepc = pc;
  status = set_mpp (set_bit (set_bit c.status mpie (bit c.status mie)) mie 0) c.cur_priv;
  trap_pc = vector c.mtvec (ltb 0 (field c.mtvec 0 2)) cause;
  next_priv = m_mode;
}

abbrev pub after_trap : ℕ → ℕ → Csrs → Ran Csrs (Unit {0})
after_trap cause tval c =
    if cause == exc_instr_pgfault && tval == c.trap_pc then abort else ret tt c

unfoldable pub raise_trap : ℕ → ℕ → Bool → ℕ → Csrs → Ran Csrs (Unit {0})
unfolding trap_to_supervisor trap_to_machine
raise_trap pc cause interrupt tval c =
    if c.cur_need_trap
    then abort
    else if to_supervisor cause interrupt c
    then after_trap cause tval (trap_to_supervisor pc cause interrupt tval c)
    else after_trap cause tval (trap_to_machine pc cause interrupt tval c)

-- The interrupt to be taken, `exc_custom_ok` for none.
unfoldable pub pending_int : Csrs → ℕ
unfolding int2index
pending_int c =
    let int_bits = bit_and c.ip c.ie in
    let mmode_int_bits = bit_and int_bits (2 ^ 64 - 1 - c.mideleg) in
    let int_index = int2index int_bits in
    if c.cur_priv == m_mode
    then if ltb 0 mmode_int_bits && ltb 0 (bit c.status mie)
      then int2index mmode_int_bits
      else exc_custom_ok
    else if test_bit c.mideleg int_index
    then if ltb 0 (bit c.status sie) || ltb c.cur_priv s_mode then int_index else exc_custom_ok
    else if ltb 0 (bit c.status mie) || ltb c.cur_priv m_mode
    then int_index
    else exc_custom_ok

unfoldable pub check_and_raise_int : ℕ → Csrs → Ran Csrs (Unit {0})
check_and_raise_int pc c =
    let index = pending_int c in
    if not (index == exc_custom_ok) then raise_trap pc index true 0 c else ret tt c

abbrev of_bool : Bool → ℕ
of_bool b = if b then 1 else 0

unfoldable pub pre_exec : ℕ → Bool → Bool → Bool → Bool → Csrs → Ran Csrs (Unit {0})
unfolding check_and_raise_int
pre_exec pc meip msip mtip seip c = check_and_raise_int pc (record c {
  mcycle = u64 (c.mcycle + 1);
  ip =
      set_bit
        (set_bit (set_bit (set_bit c.ip int_m_ext (of_bool meip)) int_m_sw (of_bool msip))
          int_m_timer (of_bool mtip))
        int_s_ext (of_bool seip);
  cur_need_trap = false;
  cur_priv = c.next_priv;
})

unfoldable pub post_exec : Csrs → Ran Csrs (Unit {0})
post_exec c =
    if blank0 c.status == 0
      && blank1 c.status == 0
      && blank2 c.status == 0
      && blank3 c.status == 0
      && blank4 c.status == 0
    then ret tt (record c {
      minstret = if c.cur_need_trap then c.minstret else u64 (c.minstret + 1);
      cur_need_trap = false;
    })
    else abort

unfoldable pub ecall : ℕ → Csrs → Ran Csrs (Unit {0})
ecall pc c = raise_trap pc (c.cur_priv + 8) false 0 c

unfoldable pub ebreak : ℕ → Csrs → Ran Csrs (Unit {0})
ebreak pc c = raise_trap pc exc_breakpoint false 0 c

-- The result is false for an illegal instruction.
unfoldable pub mret : Csrs → Bool × Csrs
mret c =
    if not (c.cur_priv == m_mode)
    then (false, c)
    else (let s = set_bit (set_bit c.status mie (bit c.status mpie)) mpie 1 in
        let cleared = if not (mpp_of s == m_mode) then set_bit s mprv 0 else s in
        (
          true,
          record c {
            status = set_mpp cleared u_mode;
            next_priv = mpp_of c.status;
            cur_need_trap = true;
            trap_pc = c.mepc;
          },
        ))

unfoldable pub sret : Csrs → Bool × Csrs
sret c =
    if ltb c.cur_priv s_mode || ltb 0 (bit c.status tsr)
    then (false, c)
    else (let s = set_bit (set_bit c.status sie (bit c.status spie)) spie 1 in
        let cleared = if not (bit s spp == m_mode) then set_bit s mprv 0 else s in
        (
          true,
          record c {
            status = set_bit cleared spp u_mode;
            next_priv = bit c.status spp;
            cur_need_trap = true;
            trap_pc = c.sepc;
          },
        ))
