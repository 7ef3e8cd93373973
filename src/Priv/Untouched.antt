-- ===== src/Priv/Untouched.antt =====
-- Accesses to memory of difftest/src/rv_priv.hpp: what they do to the registers.
use hdu_cpu_lab.Common.{
  ℕ, ◌+◌, ◌%◌, ◌==◌, ◌&&◌, ◌||◌, Bool, true, false, List, ◌++◌, Option, if◌then◌else◌, take,
}
use hdu_cpu_lab.Common.Words.{u64}
use hdu_cpu_lab.Common.Bytes.{from_bytes}
use hdu_cpu_lab.Common.Run.{
  Ran, ret, abort, ◌>>=◌, Preserves, ret-Preserves, >>=-Preserves, within-Preserves, if-Preserves,
  choose-Preserves, exits-Preserves, abort-Preserves, test-Preserves, set-Preserves,
}
use hdu_cpu_lab.Device.{MmioDev}
use hdu_cpu_lab.Bus.Amo.{AmoFunct}
use hdu_cpu_lab.Bus.{Bus}
use hdu_cpu_lab.Sv39.{Mmu}
use hdu_cpu_lab.Priv.{
  Priv, Access, okay, exc, on_mmu, on_bus, Checks, reply, translate, access, crosses_page,
}
use hdu_cpu_lab.Priv.Memory.{va_if, va_if_once, va_read, va_write, va_lr, va_sc, va_amo, sfence_vma}
use hdu_cpu_lab.Priv.Registers.{Config, Csrs}
use hdu_cpu_lab.Priv.{if_checks, read_checks, lr_checks, store_checks, tohost_addr}

-- A property of the registers alone.
abbrev pub OnCsrs : {D : Type 0} → (Csrs → Type 0) → Priv D → Type 0
OnCsrs Q p = Q p.csrs

module _ {D : Type 0} (Q : Csrs → Type 0) where
  on_mmu-OnCsrs : {A : Type 0} (m : Mmu D → Ran (Mmu D) A) → Preserves (OnCsrs Q) (on_mmu m)
  on_mmu-OnCsrs m =
      within-Preserves (λ _. Unit {0}) (OnCsrs Q) _ _ m (λ t q. tt) (λ s t q u. q) (λ s a t u e. tt)

  on_bus-OnCsrs : {A : Type 0} (m : Bus D → Ran (Bus D) A) → Preserves (OnCsrs Q) (on_bus m)
  on_bus-OnCsrs m =
      within-Preserves (λ _. Unit {0}) (OnCsrs Q) _ _ m (λ t q. tt) (λ s t q u. q) (λ s a t u e. tt)

module _ {D : Type 0} ⦃dev : MmioDev D⦄ (Q : Csrs → Type 0) where
  translate-OnCsrs :
      (checks : Checks) (start_addr size : ℕ)
      → Preserves {S = Priv D} (OnCsrs Q) (translate checks start_addr size)
  unfolding translate
  translate-OnCsrs checks start_addr size p =
      if-Preserves (OnCsrs Q) (crosses_page start_addr size) _ _ (ret-Preserves _ _)
        (>>=-Preserves (OnCsrs Q) _ _ (on_mmu-OnCsrs Q _) (λ found. ret-Preserves (OnCsrs Q) _)) p

  access-OnCsrs :
      {A : Type 0} (bare : Bool) (checks : Checks) (start_addr size : ℕ)
      (op : ℕ → Priv D → Ran (Priv D) (Option A))
      → ((pa : ℕ) → Preserves (OnCsrs Q) (op pa))
      → Preserves (OnCsrs Q) (access bare checks start_addr size op)
  unfolding access
  access-OnCsrs {A} bare checks start_addr size op h = go bare
    where
      direct : (code : ℕ) (pa : ℕ) → Preserves (OnCsrs Q) (do r ← op pa; ret (reply code r))
      direct code pa = >>=-Preserves (OnCsrs Q) _ _ (h pa) (λ r. ret-Preserves (OnCsrs Q) _)

      after :
          (found : Access ℕ)
          → Preserves {A = Access A} (OnCsrs Q) (elim found [
            | exc code ↦ ret (exc code)
            | okay pa ↦ do r ← op pa; ret (reply checks.paged_fault r)
          ])
      after (exc code) = ret-Preserves (OnCsrs Q) _
      after (okay pa) = direct checks.paged_fault pa

      go : (b : Bool) → Preserves (OnCsrs Q) (access b checks start_addr size op)
      go true = direct checks.bare_fault start_addr
      go false = >>=-Preserves (OnCsrs Q) _ _ (translate-OnCsrs checks start_addr size) after

  va_if_once-OnCsrs :
      (start_addr size : ℕ) → Preserves {S = Priv D} (OnCsrs Q) (va_if_once start_addr size)
  unfolding va_if_once
  va_if_once-OnCsrs start_addr size p =
      access-OnCsrs _ if_checks start_addr size _ (λ pa. on_bus-OnCsrs Q _) p

  pub va_if-OnCsrs :
      (start_addr size : ℕ) → Preserves {S = Priv D} (OnCsrs Q) (va_if start_addr size)
  unfolding va_if
  va_if-OnCsrs start_addr size =
      choose-Preserves (OnCsrs Q) (size == 4 && start_addr % 4 == 2) _ _
        (>>=-Preserves (OnCsrs Q) _ _ (va_if_once-OnCsrs start_addr 2) halves)
        (>>=-Preserves (OnCsrs Q) _ _ (va_if_once-OnCsrs start_addr size)
          (λ r. ret-Preserves (OnCsrs Q) _))
    where
      next : ℕ
      next = u64 (start_addr + 2)

      halves :
          (first : Access (List ℕ))
          → Preserves {S = Priv D} {A = Access (List ℕ) × ℕ} (OnCsrs Q) (elim first [
            | exc code ↦ ret (exc code, start_addr)
            | okay low ↦ do
              second ← va_if_once next 2
              ret (elim second [
                | exc code ↦ (exc code, next)
                | okay high ↦ (okay (low ++ high), next)
              ])
          ])
      halves (exc code) = ret-Preserves (OnCsrs Q) _
      halves (okay low) =
          >>=-Preserves (OnCsrs Q) _ _ (va_if_once-OnCsrs next 2) (λ r. ret-Preserves (OnCsrs Q) _)

  pub va_read-OnCsrs :
      (start_addr size : ℕ) → Preserves {S = Priv D} (OnCsrs Q) (va_read start_addr size)
  unfolding va_read
  va_read-OnCsrs start_addr size p =
      access-OnCsrs _ read_checks start_addr size _ (λ pa. on_bus-OnCsrs Q _) p

  pub va_write-OnCsrs :
      (config : Config) (start_addr size : ℕ) (buffer : List ℕ)
      → Preserves {S = Priv D} (OnCsrs Q) (va_write config start_addr size buffer)
  unfolding va_write
  va_write-OnCsrs config start_addr size buffer p =
      access-OnCsrs _ store_checks start_addr size _
        (λ pa.
          choose-Preserves (OnCsrs Q)
            (config.run_riscv_test && pa == tohost_addr && from_bytes (take 8 buffer) == 1) _ _
            (exits-Preserves (OnCsrs Q) 0) (on_bus-OnCsrs Q _))
        p

  sized :
      {A : Type 0} (size : ℕ) (m : Priv D → Ran (Priv D) A)
      → Preserves (OnCsrs Q) m
      → Preserves (OnCsrs Q) (λ p. if size == 4 || size == 8 then m p else abort)
  sized size m h =
      if-Preserves (OnCsrs Q) (size == 4 || size == 8) _ _ h (abort-Preserves (OnCsrs Q))

  pub va_lr-OnCsrs :
      (start_addr size : ℕ) → Preserves {S = Priv D} (OnCsrs Q) (va_lr start_addr size)
  unfolding va_lr
  va_lr-OnCsrs start_addr size =
      sized size _ (λ p. access-OnCsrs _ lr_checks start_addr size _ (λ pa. on_bus-OnCsrs Q _) p)

  pub va_sc-OnCsrs :
      (start_addr size : ℕ) (buffer : List ℕ)
      → Preserves {S = Priv D} (OnCsrs Q) (va_sc start_addr size buffer)
  unfolding va_sc
  va_sc-OnCsrs start_addr size buffer =
      sized size _ (λ p. access-OnCsrs _ store_checks start_addr size _ (λ pa. on_bus-OnCsrs Q _) p)

  pub va_amo-OnCsrs :
      (start_addr size : ℕ) (op : AmoFunct) (src : ℕ)
      → Preserves {S = Priv D} (OnCsrs Q) (va_amo start_addr size op src)
  unfolding va_amo
  va_amo-OnCsrs start_addr size op src =
      sized size _ (λ p. access-OnCsrs _ store_checks start_addr size _ (λ pa. on_bus-OnCsrs Q _) p)

  pub sfence_vma-OnCsrs :
      (vaddr asid : ℕ) → Preserves {S = Priv D} (OnCsrs Q) (sfence_vma vaddr asid)
  unfolding sfence_vma
  sfence_vma-OnCsrs vaddr asid =
      test-Preserves (OnCsrs Q) _ _ _ (ret-Preserves _ _) (set-Preserves _ _ _ (λ p q. q))
