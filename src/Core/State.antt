-- ===== src/Core/State.antt =====
-- The state of rv_core in difftest/src/rv_core.hpp, its registers, and its loads and stores.
use hdu_cpu_lab.Common.{
  ℕ, ◌%◌, Bool, true, false, not, ◌&&◌, Option, none, some, List, [], ◌∷◌, ◌++◌, length, ltb, ◌==◌,
  if◌then◌else◌,
}
use hdu_cpu_lab.Common.Words.{sext}
use hdu_cpu_lab.Common.Bytes.{to_bytes, from_bytes}
use hdu_cpu_lab.Common.Run.{Ran, abort, ret, within, ◌>>=◌, ◌>>◌}
use hdu_cpu_lab.Device.{MmioDev}
use hdu_cpu_lab.Priv.{Priv, okay, exc, on_csrs}
use hdu_cpu_lab.Priv.Codes.{exc_load_misalign, exc_store_misalign}
use hdu_cpu_lab.Priv.Memory.{va_read, va_write}
use hdu_cpu_lab.Priv.Registers.{Config, raise_trap}

-- `trace` and `inst_trace` are the queues of past program counters and instructions, the oldest first.
pub record Core (D : Type 0) : Type 0 where
  pub pc : ℕ
  pub gpr : ℕ → ℕ
  pub priv : Priv D
  pub debug_pc : ℕ
  pub debug_reg_num : ℕ
  pub debug_reg_wdata : ℕ
  pub debug_inst : ℕ
  pub debug_is_branch : Bool
  pub int_allow : Bool
  pub difftest_mode : Bool
  pub trace : List ℕ
  pub inst_trace : List ℕ

-- The members that the constructor leaves as they are.
pub record Unset : Type 0 where
  pub debug_pc : ℕ
  pub debug_reg_num : ℕ
  pub debug_reg_wdata : ℕ
  pub debug_inst : ℕ
  pub debug_is_branch : Bool
  pub int_allow : Bool

abbrev pub trace_size : ℕ
trace_size = 32

-- The loop that pops until the queue is short enough.
unfoldable pub shorten : List ℕ → List ℕ
shorten [] = []
shorten (x ∷ xs) = elim (ltb trace_size (length (x ∷ xs))) [ true ↦ shorten xs | false ↦ x ∷ xs ]

-- A push at the end of a history.
unfoldable pub remember : ℕ → List ℕ → List ℕ
unfolding shorten
remember x xs = shorten (xs ++ x ∷ [])

-- The loop of `dump_pc_history`: what is left of the second queue when the first one is empty, or
-- `none` where `front` is called on an empty queue.
unfoldable pub drain : List ℕ → List ℕ → Option (List ℕ)
drain [] insts = some insts
drain (pc ∷ pcs) [] = none
drain (pc ∷ pcs) (inst ∷ insts) = drain pcs insts

-- What an instruction leaves for the end of `exec`: `ri` for an illegal one, `new_pc` for a jump.
pub record Flow : Type 0 where
  pub ri : Bool
  pub new_pc : Bool

abbrev pub falls_through : Flow
falls_through = record { ri = false; new_pc = false }

abbrev pub jumps : Flow
jumps = record { ri = false; new_pc = true }

abbrev pub illegal : Flow
illegal = record { ri = true; new_pc = false }

module _ {D : Type 0} where
  -- Register 0 is not written, but reported.
  abbrev pub set_gpr : ℕ → ℕ → Core D → Core D
  set_gpr index value c = record c {
    gpr = λ k. if k == index && not (index == 0) then value else c.gpr k;
    debug_reg_num = index;
    debug_reg_wdata = value;
  }

  unfoldable pub dump_pc_history : Core D → Ran (Core D) (Unit {0})
  unfolding drain
  dump_pc_history c = elim (drain c.trace c.inst_trace) [
    | none ↦ abort
    | some insts ↦ ret tt (record c { trace = []; inst_trace = insts })
  ]

  abbrev pub set_priv : Priv D → Core D → Core D
  set_priv p c = record c { priv = p }

  abbrev pub on_priv : {A : Type 0} → (Priv D → Ran (Priv D) A) → Core D → Ran (Core D) A
  on_priv = within (λ c. c.priv) set_priv

  abbrev pub writes : ℕ → ℕ → Core D → Ran (Core D) Flow
  writes rd value c = ret falls_through (set_gpr rd value c)

  -- `alu_exec` comes back with a value, or it aborts.
  abbrev pub alu_writes : ℕ → Option ℕ → Core D → Ran (Core D) Flow
  alu_writes rd none c = abort
  alu_writes rd (some result) c = writes rd result c

  -- An exception of the current instruction, not an interrupt.
  unfoldable pub trap : ℕ → ℕ → Core D → Ran (Core D) (Unit {0})
  trap code tval c = on_priv (on_csrs (raise_trap c.pc code false tval)) c

module _ {D : Type 0} ⦃dev : MmioDev D⦄ where
  -- `none` where the method returns false, having raised a trap.
  unfoldable pub mem_read : ℕ → ℕ → Core D → Ran (Core D) (Option (List ℕ))
  unfolding trap
  mem_read start_addr size =
      if not (start_addr % size == 0) then (do trap exc_load_misalign start_addr; ret none) else (do
        r ← on_priv (va_read start_addr size)
        elim r [ okay bytes ↦ ret (some bytes) | exc code ↦ do trap code start_addr; ret none ])

  unfoldable pub mem_write : Config → ℕ → ℕ → List ℕ → Core D → Ran (Core D) Bool
  unfolding trap
  mem_write config start_addr size buffer =
      if not (start_addr % size == 0)
      then (do trap exc_store_misalign start_addr; ret false)
      else (do
        r ← on_priv (va_write config start_addr size buffer)
        elim r [ okay _ ↦ ret true | exc code ↦ do trap code start_addr; ret false ])

  -- A load of `size` bytes whose buffer is turned into a register value by `extend`.
  abbrev pub load_as : ℕ → (ℕ → ℕ) → ℕ → ℕ → Core D → Ran (Core D) Flow
  load_as size extend rd mem_addr = do
    read ← mem_read mem_addr size
    elim read [ some bytes ↦ writes rd (extend (from_bytes bytes)) | none ↦ ret falls_through ]

  -- The switch of OPCODE_LOAD on funct3.
  unfoldable pub load_switch : ℕ → ℕ → ℕ → Core D → Ran (Core D) Flow
  unfolding mem_read
  load_switch funct3 rd mem_addr =
      if funct3 == 0b000
      then load_as 1 (sext 8) rd mem_addr
      else if funct3 == 0b001
      then load_as 2 (sext 16) rd mem_addr
      else if funct3 == 0b010
      then load_as 4 (sext 32) rd mem_addr
      else if funct3 == 0b011
      then load_as 8 (λ x. x) rd mem_addr
      else if funct3 == 0b100
      then load_as 1 (λ x. x) rd mem_addr
      else if funct3 == 0b101
      then load_as 2 (λ x. x) rd mem_addr
      else if funct3 == 0b110
      then load_as 4 (λ x. x) rd mem_addr
      else ret illegal

  abbrev pub store_as : Config → ℕ → ℕ → ℕ → Core D → Ran (Core D) Flow
  store_as config size mem_addr value = do
    _ ← mem_write config mem_addr size (to_bytes 8 value)
    ret falls_through

  -- The switch of OPCODE_STORE on funct3.
  unfoldable pub store_switch : Config → ℕ → ℕ → ℕ → Core D → Ran (Core D) Flow
  unfolding mem_write
  store_switch config funct3 mem_addr value =
      if funct3 == 0b000
      then store_as config 1 mem_addr value
      else if funct3 == 0b001
      then store_as config 2 mem_addr value
      else if funct3 == 0b010
      then store_as config 4 mem_addr value
      else if funct3 == 0b011
      then store_as config 8 mem_addr value
      else ret illegal
