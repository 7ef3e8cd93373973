-- ===== src/Priv.antt =====
-- difftest/src/rv_priv.hpp: memory accesses through the privileged state, the TLB and the bus.
pub mod Codes
pub mod Registers
pub mod CsrFile
pub mod Trap
pub mod Invariant
pub mod Memory
pub mod Protect
pub mod Operated
pub mod Untouched
pub mod Interrupts
pub mod CsrRoundTrip
use hdu_cpu_lab.Common.{
  ℕ, ◌+◌, ◌-◌, ◌*◌, ◌/◌, ◌%◌, ◌^◌, Bool, true, false, not, ◌&&◌, ◌||◌, Option, none, some, List, [],
  ◌∷◌, ◌++◌, length, take, ltb, leb, ◌==◌, if◌then◌else◌,
}
use hdu_cpu_lab.Common.Words.{u64}
use hdu_cpu_lab.Common.Bytes.{from_bytes}
use hdu_cpu_lab.Common.Run.{Ran, ret, abort, exits, within, ◌>>=◌}
use hdu_cpu_lab.Device.{MmioDev}
use hdu_cpu_lab.Bus.{Bus, pa_read, pa_write, pa_lr, pa_sc, pa_amo_op}
use hdu_cpu_lab.Bus.Amo.{AmoFunct}
use hdu_cpu_lab.Sv39.{Mmu, local_tlbe_get}
use hdu_cpu_lab.Sv39.Fields.{satp_mode}
use hdu_cpu_lab.Sv39.Tlb
use hdu_cpu_lab.Sv39.Tlb.{TlbEntry}
use Codes.{
  u_mode, s_mode, m_mode, mprv, sum, mxr, tvm, bit, mpp_of, exc_instr_misalign, exc_instr_acc_fault,
  exc_instr_pgfault, exc_load_misalign, exc_load_acc_fault, exc_load_pgfault, exc_store_misalign,
  exc_store_acc_fault, exc_store_pgfault,
}
use Registers.{Config, Csrs}

pub record Priv (D : Type 0) : Type 0 where
  pub csrs : Csrs
  pub mmu : Mmu D

-- The result of an access: `exc_custom_ok` with a value, or the code of an exception.
pub data Access {ℓ} (A : Type ℓ) : Type ℓ where
  okay : A → Access A
  exc : ℕ → Access A

-- Loads and stores are not translated in machine mode, unless mprv lends them another mode.
abbrev pub is_bare : Csrs → Bool
is_bare c =
    (c.cur_priv == m_mode && (bit c.status mprv == 0 || mpp_of c.status == m_mode))
    || satp_mode c.satp == 0

abbrev pub effective_priv : Csrs → ℕ
effective_priv c =
    if ltb 0 (bit c.status mprv) && c.cur_priv == m_mode then mpp_of c.status else c.cur_priv

-- The first and the last byte lie in different pages of 4 KB.
abbrev pub crosses_page : ℕ → ℕ → Bool
crosses_page start_addr size =
    not (start_addr / 2 ^ 12 == u64 (start_addr + size + 2 ^ 64 - 1) / 2 ^ 12)

abbrev pub page_size : TlbEntry → ℕ
page_size e = if e.pagesize == 1 then 2 ^ 12 else if e.pagesize == 2 then 2 ^ 21 else 2 ^ 30

abbrev pub physical : TlbEntry → ℕ → ℕ
physical e start_addr = u64 (e.ppa + start_addr % page_size e)

-- What the access asks of the page, as the exception to raise if it is refused.
abbrev pub if_refuses : Csrs → TlbEntry → Option ℕ
if_refuses c e =
    if not e.a || not e.x
    then some exc_instr_pgfault
    else if (c.cur_priv == u_mode && not e.u) || (c.cur_priv == s_mode && e.u)
    then some exc_instr_pgfault
    else none

-- The test of va_read and va_lr, whose codes differ.
abbrev pub load_refuses : ℕ → ℕ → Csrs → TlbEntry → Option ℕ
load_refuses page_fault access_fault c e =
    if not e.a || (not e.r && not (ltb 0 (bit c.status mxr) && not e.x))
    then some page_fault
    else if effective_priv c == u_mode && not e.u
    then some page_fault
    else if bit c.status sum == 0 && effective_priv c == s_mode && e.u
    then some access_fault
    else none

-- The test of va_write, va_sc and va_amo.
abbrev pub store_refuses : Csrs → TlbEntry → Option ℕ
store_refuses c e =
    if not e.a || not e.d || not e.w
    then some exc_store_pgfault
    else if effective_priv c == u_mode && not e.u
    then some exc_store_pgfault
    else if bit c.status sum == 0 && effective_priv c == s_mode && e.u
    then some exc_store_pgfault
    else none

-- The address of `tohost`, which a RISC-V test writes when it ends.
abbrev pub tohost_addr : ℕ
tohost_addr = 0x80001000

module _ {D : Type 0} where
  abbrev pub set_csrs : Csrs → Priv D → Priv D
  set_csrs c p = record p { csrs = c }

  abbrev pub set_mmu : Mmu D → Priv D → Priv D
  set_mmu m p = record p { mmu = m }

  abbrev pub set_bus : Bus D → Priv D → Priv D
  set_bus b p = record p { mmu = record p.mmu { bus = b } }

  -- A call on the registers, on the TLB with the bus behind it, and on the bus.
  abbrev pub on_csrs : {A : Type 0} → (Csrs → Ran Csrs A) → Priv D → Ran (Priv D) A
  on_csrs = within (λ p. p.csrs) set_csrs

  abbrev pub on_mmu : {A : Type 0} → (Mmu D → Ran (Mmu D) A) → Priv D → Ran (Priv D) A
  on_mmu = within (λ p. p.mmu) set_mmu

  abbrev pub on_bus : {A : Type 0} → (Bus D → Ran (Bus D) A) → Priv D → Ran (Priv D) A
  on_bus = within (λ p. p.mmu.bus) set_bus

-- The codes that tell the accesses apart: a page crossing, a missing page, a bus error without and
-- with translation; and the test of the page.
pub record Checks : Type 0 where
  pub misalign : ℕ
  pub page_fault : ℕ
  pub bare_fault : ℕ
  pub paged_fault : ℕ
  pub refuses : Csrs → TlbEntry → Option ℕ

abbrev pub if_checks : Checks
if_checks = record {
  misalign = exc_instr_misalign;
  page_fault = exc_instr_pgfault;
  bare_fault = exc_instr_acc_fault;
  paged_fault = exc_instr_acc_fault;
  refuses = if_refuses;
}

abbrev pub read_checks : Checks
read_checks = record {
  misalign = exc_load_misalign;
  page_fault = exc_load_pgfault;
  bare_fault = exc_load_acc_fault;
  paged_fault = exc_load_acc_fault;
  refuses = load_refuses exc_load_pgfault exc_load_acc_fault;
}

abbrev pub lr_checks : Checks
lr_checks = record {
  misalign = exc_store_misalign;
  page_fault = exc_store_pgfault;
  bare_fault = exc_store_acc_fault;
  paged_fault = exc_store_acc_fault;
  refuses = load_refuses exc_store_pgfault exc_store_acc_fault;
}

abbrev pub store_checks : Checks
store_checks = record {
  misalign = exc_store_misalign;
  page_fault = exc_store_pgfault;
  bare_fault = exc_store_acc_fault;
  paged_fault = exc_store_pgfault;
  refuses = store_refuses;
}

abbrev pub reply {ℓ} : {A : Type ℓ} → ℕ → Option A → Access A
reply code none = exc code
reply code (some a) = okay a

module _ {D : Type 0} ⦃dev : MmioDev D⦄ where
  -- The part of an access that finds the physical address.
  unfoldable pub translate : Checks → ℕ → ℕ → Priv D → Ran (Priv D) (Access ℕ)
  translate checks start_addr size p =
      if crosses_page start_addr size
      then ret (exc checks.misalign) p
      else (do
        found ← on_mmu (local_tlbe_get p.csrs.satp start_addr)
        ret (elim found [
          | none ↦ exc checks.page_fault
          | some e ↦ elim (checks.refuses p.csrs e) [
            | none ↦ okay (physical e start_addr)
            | some code ↦ exc code
          ]
        ]))
          p

  -- One access: `bare` says that the address is physical, `op` is the call of the bus.
  unfoldable pub access :
      {A : Type 0}
      → Bool
      → Checks
      → ℕ
      → ℕ
      → (ℕ → Priv D → Ran (Priv D) (Option A))
      → Priv D
      → Ran (Priv D) (Access A)
  unfolding translate
  access bare checks start_addr size op =
      let direct = (do r ← op start_addr; ret (reply checks.bare_fault r)) in
      let paged = (do
        found ← translate checks start_addr size
        elim found [
          | exc code ↦ ret (exc code)
          | okay pa ↦ do r ← op pa; ret (reply checks.paged_fault r)
        ]) in
      if bare then direct else paged
