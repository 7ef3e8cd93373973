-- ===== src/Core/ReadBack.antt =====
-- Stores and loads of difftest/src/rv_core.hpp at one address.
use hdu_cpu_lab.Common.{
  ℕ, ◌+◌, ◌%◌, ◌^◌, ◌≤◌, ◌<◌, ◌≡◌, refl, sym, ap, ◌∙◌, subst, Bool, true, false, ◌&&◌, Option, none,
  some, List, arith, length, take, length-take, ◌==◌, if◌then◌else◌,
}
use hdu_cpu_lab.Common.Words.{sext}
use hdu_cpu_lab.Common.Bytes.{to_bytes, from_bytes, length-to_bytes}
use hdu_cpu_lab.Common.Run.{Ran, ret, >>=-ret, within-ret}
use hdu_cpu_lab.Device.Mem.{Mem}
use hdu_cpu_lab.Device.Mem.Laws.{mem_dev}
use hdu_cpu_lab.Bus.{Bus, pa_read, pa_write}
use hdu_cpu_lab.Bus.Table.{Entry}
use hdu_cpu_lab.Bus.Access.{IsFlat, Holds}
use hdu_cpu_lab.Bus.ReadBack.{ReadsBack, pa_write-ReadsBack}
use hdu_cpu_lab.Priv.{
  Priv, okay, is_bare, tohost_addr, set_bus, access, Checks, reply, store_checks, read_checks,
}
use hdu_cpu_lab.Priv.Memory.{va_read, va_write}
use hdu_cpu_lab.Priv.Registers.{Config}
use hdu_cpu_lab.Core.State.{
  Core, Flow, falls_through, set_gpr, set_priv, on_priv, mem_read, mem_write, load_switch,
  store_switch, load_as, store_as, writes,
}

-- The low bytes of a register, read as a number.
low_bytes :
    (value : ℕ)
    → (from_bytes (take 1 (to_bytes 8 value)) ≡ value % 256 ^ 1)
      × (from_bytes (take 2 (to_bytes 8 value)) ≡ value % 256 ^ 2)
      × (from_bytes (take 4 (to_bytes 8 value)) ≡ value % 256 ^ 4)
      × (from_bytes (take 8 (to_bytes 8 value)) ≡ value % 256 ^ 8)
unfolding to_bytes from_bytes
low_bytes value = (omega arith, omega arith, omega arith, omega arith)

&&-false : (x y z : Bool) → (x && y) ≡ false → (x && y && z) ≡ false
&&-false false y z h = refl
&&-false true false z h = refl
&&-false true true z h = cc

-- An access without translation.
access-bare :
    {A : Type 0} (bare : Bool) (checks : Checks) (a size : ℕ)
    (op : ℕ → Priv Mem → Ran (Priv Mem) (Option A)) (p q : Priv Mem) (x : A)
    → bare ≡ true
    → op a p ≡ ret (some x) q
    → access bare checks a size op p ≡ ret (okay x) q
unfolding access
access-bare bare checks a size op p q x b e =
    rw b (>>=-ret (op a) (λ r. ret (reply checks.bare_fault r)) p e)

va_write-bare :
    (config : Config) (p : Priv Mem) (a : ℕ) (buffer : List ℕ) (size : ℕ) (b : Bus Mem)
    → is_bare p.csrs ≡ true
    → (config.run_riscv_test && a == tohost_addr && from_bytes (take 8 buffer) == 1) ≡ false
    → pa_write a (take size buffer) p.mmu.bus ≡ ret true b
    → va_write config a size buffer p ≡ ret (okay tt) (set_bus b p)
unfolding va_write
va_write-bare config p a buffer size b bare plain w =
    access-bare (is_bare p.csrs) store_checks a size _ p (set_bus b p) tt bare (
      rw plain (
        within-ret (λ p. p.mmu.bus) set_bus _ p
          (>>=-ret (pa_write a (take size buffer)) (λ ok. ret (if ok then some tt else none))
            p.mmu.bus w)))

va_read-bare :
    (p : Priv Mem) (a size : ℕ) (bytes : List ℕ)
    → is_bare p.csrs ≡ true
    → pa_read a size p.mmu.bus ≡ ret (some bytes) p.mmu.bus
    → va_read a size p ≡ ret (okay bytes) p
unfolding va_read
va_read-bare p a size bytes bare r =
    access-bare (is_bare p.csrs) read_checks a size _ p p bytes bare
      (within-ret (λ p. p.mmu.bus) set_bus (pa_read a size) p r)

module _ (config : Config) (c : Core Mem) (a size : ℕ) (bare : is_bare c.priv.csrs ≡ true)
    (aligned : a % size ≡ 0) where
  mem_write-bare :
      (buffer : List ℕ) (b : Bus Mem)
      → (config.run_riscv_test && a == tohost_addr && from_bytes (take 8 buffer) == 1) ≡ false
      → pa_write a (take size buffer) c.priv.mmu.bus ≡ ret true b
      → mem_write config a size buffer c ≡ ret true (set_priv (set_bus b c.priv) c)
  unfolding mem_write
  mem_write-bare buffer b plain w = rw aligned (
      >>=-ret (on_priv (va_write config a size buffer)) _ c (
        within-ret (λ c. c.priv) set_priv (va_write config a size buffer) c
          (va_write-bare config c.priv a buffer size b bare plain w)))

  mem_read-bare :
      (bytes : List ℕ)
      → pa_read a size c.priv.mmu.bus ≡ ret (some bytes) c.priv.mmu.bus
      → mem_read a size c ≡ ret (some bytes) c
  unfolding mem_read
  mem_read-bare bytes r = rw aligned (
      >>=-ret (on_priv (va_read a size)) _ c (
        within-ret (λ c. c.priv) set_priv (va_read a size) c
          (va_read-bare c.priv a size bytes bare r)))

-- A store instruction, a load instruction of the same width, the width in bytes, and what the load
-- makes of the number that the bytes are.
pub data Pairs : ℕ → ℕ → ℕ → (ℕ → ℕ) → Type 0 where
  sb_lb : Pairs 0b000 0b000 1 (sext 8)
  sh_lh : Pairs 0b001 0b001 2 (sext 16)
  sw_lw : Pairs 0b010 0b010 4 (sext 32)
  sd_ld : Pairs 0b011 0b011 8 (λ x. x)
  sb_lbu : Pairs 0b000 0b100 1 (λ x. x)
  sh_lhu : Pairs 0b001 0b101 2 (λ x. x)
  sw_lwu : Pairs 0b010 0b110 4 (λ x. x)

module _ (config : Config) (c : Core Mem) (bare : is_bare c.priv.csrs ≡ true)
    (flat : IsFlat c.priv.mmu.bus) (a value : ℕ)
    (untested : (config.run_riscv_test && a == tohost_addr) ≡ false) where
  -- What is stored is loaded.
  abbrev pub Returns :
      (ℕ → Core Mem → Ran (Core Mem) Flow)
      → (ℕ → Core Mem → Ran (Core Mem) Flow)
      → ℕ
      → (ℕ → ℕ)
      → ℕ
      → Type 0
  Returns store load size extend rd =
      (b : Bus Mem) × (store a c ≡ ret falls_through (set_priv (set_bus b c.priv) c))
      × (load a (set_priv (set_bus b c.priv) c)
          ≡ ret falls_through
              (set_gpr rd (extend (value % 256 ^ size)) (set_priv (set_bus b c.priv) c)))

  same_width :
      (size : ℕ) (extend : ℕ → ℕ) (rd : ℕ) (e : Entry)
      → 0 < size
      → size ≤ 8
      → from_bytes (take size (to_bytes 8 value)) ≡ value % 256 ^ size
      → a % size ≡ 0
      → a + size < 2 ^ 64
      → Holds c.priv.mmu.bus a size e
      → Returns (λ a. store_as config size a value) (load_as size extend rd) size extend rd
  same_width size extend rd e some_byte small bytes aligned low held = (
    b,
    >>=-ret (mem_write config a size (to_bytes 8 value)) (λ _. ret falls_through) c
        (mem_write-bare config c a size bare aligned (to_bytes 8 value) b not_tohost back.writes),
    >>=-ret (mem_read a size) _ d (mem_read-bare config d a size bare aligned buffer read)
        ∙ ap (λ k. writes rd (extend k) d) bytes,
  )
    where
      buffer : List ℕ
      buffer = take size (to_bytes 8 value)

      width : length buffer ≡ size
      width =
          length-take size (to_bytes 8 value)
            (subst (λ k. size ≤ k) (sym (length-to_bytes 8 value)) small)

      back : ReadsBack c.priv.mmu.bus a buffer
      back =
          pa_write-ReadsBack c.priv.mmu.bus flat a buffer (subst (λ k. 0 < k) (sym width) some_byte)
            (subst (λ k. a + k < 2 ^ 64) (sym width) low) e
            (subst (λ k. Holds c.priv.mmu.bus a k e) (sym width) held)

      b : Bus Mem
      b = back.after

      d : Core Mem
      d = set_priv (set_bus b c.priv) c

      read : pa_read a size b ≡ ret (some buffer) b
      read = subst (λ k. pa_read a k b ≡ ret (some buffer) b) width back.reads

      not_tohost :
          (config.run_riscv_test && a == tohost_addr && from_bytes (take 8 (to_bytes 8 value)) == 1)
          ≡ false
      not_tohost = &&-false config.run_riscv_test (a == tohost_addr) _ untested

  -- Conditions: addresses are not translated, the devices of the bus are memories, and one of them holds
  -- the stretch of `size` bytes at `a`, which is aligned and ends below 2 ^ 64; no RISC-V test runs, or
  -- `a` is not the address that ends it. Then the store of a register comes back with nothing but the
  -- bus changed, and the load of the same width that follows writes to its register the low `size`
  -- bytes of what was stored, extended by the sign for LB, LH and LW and by zeros for LBU, LHU and LWU.
  pub store_switch-load_switch :
      {store_funct3 load_funct3 size : ℕ} {extend : ℕ → ℕ}
      → Pairs store_funct3 load_funct3 size extend
      → (rd : ℕ) (e : Entry) → a % size ≡ 0
      → a + size < 2 ^ 64
      → Holds c.priv.mmu.bus a size e
      → Returns
          (λ a. store_switch config store_funct3 a value)
          (load_switch load_funct3 rd)
          size
          extend
          rd
  unfolding store_switch load_switch
  store_switch-load_switch sb_lb rd e =
      same_width 1 (sext 8) rd e (omega arith) (omega arith) (low_bytes value).0
  store_switch-load_switch sh_lh rd e =
      same_width 2 (sext 16) rd e (omega arith) (omega arith) (low_bytes value).1
  store_switch-load_switch sw_lw rd e =
      same_width 4 (sext 32) rd e (omega arith) (omega arith) (low_bytes value).2
  store_switch-load_switch sd_ld rd e =
      same_width 8 (λ x. x) rd e (omega arith) (omega arith) (low_bytes value).3
  store_switch-load_switch sb_lbu rd e =
      same_width 1 (λ x. x) rd e (omega arith) (omega arith) (low_bytes value).0
  store_switch-load_switch sh_lhu rd e =
      same_width 2 (λ x. x) rd e (omega arith) (omega arith) (low_bytes value).1
  store_switch-load_switch sw_lwu rd e =
      same_width 4 (λ x. x) rd e (omega arith) (omega arith) (low_bytes value).2
