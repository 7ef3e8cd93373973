-- ===== src/Priv/CsrFile.antt =====
-- Reading and writing control and status registers by number, difftest/src/rv_priv.hpp.
use hdu_cpu_lab.Common.{
  ℕ, ◌-◌, ◌/◌, ◌%◌, ◌^◌, Bool, true, false, not, ◌&&◌, ◌||◌, Option, none, some, bit_and, bit_or,
  leb, ◌==◌, if◌then◌else◌,
}
use hdu_cpu_lab.Common.Words.{field}
use hdu_cpu_lab.Common.Run.{Ran, ret, abort}
use hdu_cpu_lab.Priv.Codes.{m_mode, m_int_mask, mie, mpie, mprv, bit, set_bit, mpp_of, set_mpp}
use hdu_cpu_lab.Priv.Registers.{Config, Csrs}

-- enum rv_csr_addr
abbrev pub csr_cycle : ℕ
csr_cycle = 0xc00

abbrev pub csr_mvendorid : ℕ
csr_mvendorid = 0xf11

abbrev pub csr_marchid : ℕ
csr_marchid = 0xf12

abbrev pub csr_mimpid : ℕ
csr_mimpid = 0xf13

abbrev pub csr_mhartid : ℕ
csr_mhartid = 0xf14

abbrev pub csr_mconfigptr : ℕ
csr_mconfigptr = 0xf15

abbrev pub csr_mstatus : ℕ
csr_mstatus = 0x300

abbrev pub csr_misa : ℕ
csr_misa = 0x301

abbrev pub csr_medeleg : ℕ
csr_medeleg = 0x302

abbrev pub csr_mideleg : ℕ
csr_mideleg = 0x303

abbrev pub csr_mie : ℕ
csr_mie = 0x304

abbrev pub csr_mtvec : ℕ
csr_mtvec = 0x305

abbrev pub csr_mcounteren : ℕ
csr_mcounteren = 0x306

abbrev pub csr_mscratch : ℕ
csr_mscratch = 0x340

abbrev pub csr_mepc : ℕ
csr_mepc = 0x341

abbrev pub csr_mcause : ℕ
csr_mcause = 0x342

abbrev pub csr_mtval : ℕ
csr_mtval = 0x343

abbrev pub csr_mip : ℕ
csr_mip = 0x344

abbrev pub csr_mcycle : ℕ
csr_mcycle = 0xb00

abbrev pub csr_minstret : ℕ
csr_minstret = 0xb02

abbrev pub csr_tselect : ℕ
csr_tselect = 0x7a0

abbrev pub csr_tdata1 : ℕ
csr_tdata1 = 0x7a1

-- `none` is the result false, for a register that does not exist.
unfoldable pub csr_read : ℕ → Csrs → Option ℕ
csr_read csr_index c =
    if csr_index == csr_mvendorid
    then some 0
    else if csr_index == csr_marchid
    then some 0
    else if csr_index == csr_mimpid
    then some 0
    else if csr_index == csr_mhartid
    then some c.hart_id
    else if csr_index == csr_mconfigptr
    then some 0
    else if csr_index == csr_mstatus
    then some c.status
    else if csr_index == csr_misa
    then some c.misa
    else if csr_index == csr_medeleg
    then some c.medeleg
    else if csr_index == csr_mideleg
    then some c.mideleg
    else if csr_index == csr_mie
    then some c.ie
    else if csr_index == csr_mtvec
    then some c.mtvec
    else if csr_index == csr_mcounteren
    then some c.mcounteren
    else if csr_index == csr_mscratch
    then some c.mscratch
    else if csr_index == csr_mepc
    then some c.mepc
    else if csr_index == csr_mcause
    then some c.mcause
    else if csr_index == csr_mtval
    then some c.mtval
    else if csr_index == csr_mip
    then some c.ip
    else if csr_index == csr_mcycle
    then some c.mcycle
    else if csr_index == csr_minstret
    then some c.minstret
    else if csr_index == csr_cycle
    then some c.mcycle
    else if csr_index == csr_tselect
    then some 1
    else if csr_index == csr_tdata1
    then some 0
    else none

-- The fields of mstatus that a write reaches.
unfoldable pub write_mstatus : Config → ℕ → ℕ → ℕ
write_mstatus config status csr_data =
    let s = set_bit (set_bit status mie (bit csr_data mie)) mpie (bit csr_data mpie) in
    let mpp = mpp_of csr_data in
    if config.only_mode_m && config.run_riscv_test
    then s
    else set_bit (set_mpp s (if mpp == 3 || mpp == 0 then mpp else mpp_of s)) mprv
        (bit csr_data mprv)

-- The result is false for a register that cannot be written.
unfoldable pub csr_write : Config → ℕ → ℕ → Csrs → Ran Csrs Bool
unfolding write_mstatus
csr_write config csr_index csr_data c =
    if csr_index == csr_misa
    then ret true c
    else if csr_index == csr_mstatus
    then ret true (record c { status = write_mstatus config c.status csr_data })
    else if csr_index == csr_mie
    then ret true (record c { ie = bit_and csr_data m_int_mask })
    else if csr_index == csr_mtvec
    then if leb (field csr_data 0 2) 1 then ret true (record c { mtvec = csr_data }) else abort
    else if csr_index == csr_mcounteren
    then ret true c
    else if csr_index == csr_mscratch
    then ret true (record c { mscratch = csr_data })
    else if csr_index == csr_mepc
    then ret true (record c { mepc = csr_data })
    else if csr_index == csr_mcause
    then ret true (record c { mcause = csr_data })
    else if csr_index == csr_mtval
    then ret true (record c { mtval = csr_data })
    else if csr_index == csr_mip
    then ret true (record c { ip = bit_and csr_data m_int_mask })
    else if csr_index == csr_mcycle
    then ret true (record c { mcycle = csr_data })
    else if csr_index == csr_tselect
    then ret true c
    else if csr_index == csr_tdata1
    then ret true c
    else ret false c

abbrev pub read_modify_write : Config → ℕ → (ℕ → ℕ) → Csrs → Ran Csrs Bool
read_modify_write config csr_index f c = elim (csr_read csr_index c) [
  | none ↦ ret false c
  | some old ↦ csr_write config csr_index (f old) c
]

unfoldable pub csr_setbit : Config → ℕ → ℕ → Csrs → Ran Csrs Bool
csr_setbit config csr_index csr_mask c =
    read_modify_write config csr_index (λ old. bit_or old csr_mask) c

unfoldable pub csr_clearbit : Config → ℕ → ℕ → Csrs → Ran Csrs Bool
csr_clearbit config csr_index csr_mask c =
    read_modify_write config csr_index (λ old. bit_and old (2 ^ 64 - 1 - csr_mask)) c

unfoldable pub csr_op_permission_check : ℕ → Bool → Csrs → Bool
csr_op_permission_check csr_index write c =
    if not (c.cur_priv == m_mode)
    then false
    else if csr_index / 2 ^ 10 % 4 == 3 && write
    then false
    else true
