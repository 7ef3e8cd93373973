-- ===== src/Priv/Codes.antt =====
-- The numbers of difftest/src/rv_common.hpp: privilege modes, causes, and the fields of mstatus.
use hdu_cpu_lab.Common.{ℕ, ◌+◌, ◌^◌}
use hdu_cpu_lab.Common.Words.{field, set_field}

-- enum priv_mode
abbrev pub u_mode : ℕ
u_mode = 0

abbrev pub s_mode : ℕ
s_mode = 1

abbrev pub m_mode : ℕ
m_mode = 3

-- enum rv_int_code
abbrev pub int_s_sw : ℕ
int_s_sw = 1

abbrev pub int_m_sw : ℕ
int_m_sw = 3

abbrev pub int_s_timer : ℕ
int_s_timer = 5

abbrev pub int_m_timer : ℕ
int_m_timer = 7

abbrev pub int_s_ext : ℕ
int_s_ext = 9

abbrev pub int_m_ext : ℕ
int_m_ext = 11

-- The bits of the six interrupts.
abbrev pub m_int_mask : ℕ
m_int_mask =
    2 ^ int_s_ext + 2 ^ int_s_sw + 2 ^ int_s_timer + 2 ^ int_m_ext + 2 ^ int_m_sw + 2 ^ int_m_timer

-- enum rv_exc_code
abbrev pub exc_instr_misalign : ℕ
exc_instr_misalign = 0

abbrev pub exc_instr_acc_fault : ℕ
exc_instr_acc_fault = 1

abbrev pub exc_illegal_instr : ℕ
exc_illegal_instr = 2

abbrev pub exc_breakpoint : ℕ
exc_breakpoint = 3

abbrev pub exc_load_misalign : ℕ
exc_load_misalign = 4

abbrev pub exc_load_acc_fault : ℕ
exc_load_acc_fault = 5

abbrev pub exc_store_misalign : ℕ
exc_store_misalign = 6

abbrev pub exc_store_acc_fault : ℕ
exc_store_acc_fault = 7

abbrev pub exc_ecall_from_user : ℕ
exc_ecall_from_user = 8

abbrev pub exc_instr_pgfault : ℕ
exc_instr_pgfault = 12

abbrev pub exc_load_pgfault : ℕ
exc_load_pgfault = 13

abbrev pub exc_store_pgfault : ℕ
exc_store_pgfault = 15

abbrev pub exc_custom_ok : ℕ
exc_custom_ok = 24

-- csr_mstatus_def: the one-bit fields by their position, `mpp` of two bits.
abbrev pub sie : ℕ
sie = 1

abbrev pub mie : ℕ
mie = 3

abbrev pub spie : ℕ
spie = 5

abbrev pub mpie : ℕ
mpie = 7

abbrev pub spp : ℕ
spp = 8

abbrev pub mprv : ℕ
mprv = 17

abbrev pub sum : ℕ
sum = 18

abbrev pub mxr : ℕ
mxr = 19

abbrev pub tvm : ℕ
tvm = 20

abbrev pub tsr : ℕ
tsr = 22

abbrev pub bit : ℕ → ℕ → ℕ
bit status i = field status i 1

abbrev pub set_bit : ℕ → ℕ → ℕ → ℕ
set_bit status i v = set_field status i 1 v

abbrev pub mpp_of : ℕ → ℕ
mpp_of status = field status 11 2

abbrev pub set_mpp : ℕ → ℕ → ℕ
set_mpp status v = set_field status 11 2 v

-- The fields blank0 to blank4 that `post_exec` asserts to be 0: (position, width).
abbrev pub blank0 : ℕ → ℕ
blank0 status = field status 0 1

abbrev pub blank1 : ℕ → ℕ
blank1 status = field status 2 1

abbrev pub blank2 : ℕ → ℕ
blank2 status = field status 4 1

abbrev pub blank3 : ℕ → ℕ
blank3 status = field status 23 9

abbrev pub blank4 : ℕ → ℕ
blank4 status = field status 38 25
