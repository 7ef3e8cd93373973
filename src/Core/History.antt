-- ===== src/Core/History.antt =====
-- The histories of difftest/src/rv_core.hpp and `dump_pc_history`.
use hdu_cpu_lab.Common.{
  ℕ, ◌≤◌, ◌<◌, ◌≡◌, refl, sym, ◌∙◌, ◌⊎◌, inl, inr, none, some, List, [], ◌∷◌, length, drop, arith,
}
use hdu_cpu_lab.Common.Run.{ret, abort, ret-inj, NeverExits}
use hdu_cpu_lab.Core.State.{Core, drain, dump_pc_history}

-- The queue of instructions is emptied as far as that of program counters is long.
drain-drop :
    (pcs insts : List ℕ)
    → (length pcs ≤ length insts) × (drain pcs insts ≡ some (drop (length pcs) insts))
      ⊎ (length insts < length pcs) × (drain pcs insts ≡ none)
unfolding drain
drain-drop [] insts = inl (omega arith, refl)
drain-drop (pc ∷ pcs) [] = inr (omega arith, refl)
drain-drop (pc ∷ pcs) (inst ∷ insts) = elim (drain-drop pcs insts) [
  | inl (p, e) ↦ inl (omega arith, e)
  | inr (p, e) ↦ inr (omega arith, e)
]

module _ {D : Type 0} (c : Core D) where
  -- A core without the entries that are printed.
  abbrev pub emptied : Core D
  emptied = record c { trace = []; inst_trace = drop (length c.trace) c.inst_trace }

  pub dump_pc_history-cases :
      (length c.trace ≤ length c.inst_trace) × (dump_pc_history c ≡ ret tt emptied)
      ⊎ (length c.inst_trace < length c.trace) × (dump_pc_history c ≡ abort)
  unfolding dump_pc_history
  dump_pc_history-cases = elim (drain-drop c.trace c.inst_trace) [
    | inl (p, e) ↦ inl (p, rw (e, dump_pc_history))
    | inr (p, e) ↦ inr (p, rw (e, dump_pc_history))
  ]

  pub dump_pc_history-inv : {d : Core D} → dump_pc_history c ≡ ret tt d → d ≡ emptied
  dump_pc_history-inv h = elim dump_pc_history-cases [
    | inl (_, e) ↦ ret-inj (sym e ∙ h)
    | inr (_, e) ↦ let q = sym e ∙ h in cc
  ]

pub dump_pc_history-NeverExits : {D : Type 0} → NeverExits {S = Core D} dump_pc_history
dump_pc_history-NeverExits c n h = elim (dump_pc_history-cases c) [
  | inl (_, e) ↦ let q = sym e ∙ h in cc
  | inr (_, e) ↦ let q = sym e ∙ h in cc
]
