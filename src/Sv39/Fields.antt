-- ===== src/Sv39/Fields.antt =====
-- The bit fields of satp_def, sv39_va and sv39_pte in difftest/src/rv_common.hpp.
use hdu_cpu_lab.Common.{ℕ, ◌+◌, ◌-◌, ◌*◌, ◌/◌, ◌^◌, Bool, ◌&&◌, ◌||◌, ltb, ◌==◌}
use hdu_cpu_lab.Common.Words.{field, test_bit}

abbrev pub satp_ppn : ℕ → ℕ
satp_ppn satp = field satp 0 44

abbrev pub satp_asid : ℕ → ℕ
satp_asid satp = field satp 44 16

abbrev pub satp_mode : ℕ → ℕ
satp_mode satp = field satp 60 4

-- vpn_0, vpn_1 and vpn_2
abbrev pub va_vpn : ℕ → ℕ → ℕ
va_vpn va i = field va (12 + 9 * i) 9

-- The assertion of `local_tlbe_get`: the bits above the page numbers repeat the highest one.
abbrev pub va_is_canonical : ℕ → Bool
va_is_canonical va =
    let blank = field va 39 25 in
    let sign = va_vpn va 2 / 2 ^ 8 in
    (blank == 2 ^ 25 - 1 && ltb 0 sign) || (blank == 0 && sign == 0)

abbrev pub pte_v : ℕ → Bool
pte_v pte = test_bit pte 0

abbrev pub pte_r : ℕ → Bool
pte_r pte = test_bit pte 1

abbrev pub pte_w : ℕ → Bool
pte_w pte = test_bit pte 2

abbrev pub pte_x : ℕ → Bool
pte_x pte = test_bit pte 3

abbrev pub pte_u : ℕ → Bool
pte_u pte = test_bit pte 4

abbrev pub pte_g : ℕ → Bool
pte_g pte = test_bit pte 5

abbrev pub pte_a : ℕ → Bool
pte_a pte = test_bit pte 6

abbrev pub pte_d : ℕ → Bool
pte_d pte = test_bit pte 7

abbrev pub pte_ppn0 : ℕ → ℕ
pte_ppn0 pte = field pte 10 9

abbrev pub pte_ppn1 : ℕ → ℕ
pte_ppn1 pte = field pte 19 9

abbrev pub pte_ppn2 : ℕ → ℕ
pte_ppn2 pte = field pte 28 26

abbrev pub pte_reserved : ℕ → ℕ
pte_reserved pte = field pte 54 7

abbrev pub pte_pbmt : ℕ → ℕ
pte_pbmt pte = field pte 61 2

-- `((((PPN2 << 9) | PPN1) << 9) | PPN0) << 12`; the fields do not overlap.
abbrev pub pte_pa : ℕ → ℕ
pte_pa pte = ((pte_ppn2 pte * 2 ^ 9 + pte_ppn1 pte) * 2 ^ 9 + pte_ppn0 pte) * 2 ^ 12
