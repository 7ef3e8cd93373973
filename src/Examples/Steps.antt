-- ===== src/Examples/Steps.antt =====
-- A division, a store with its load, and a step of the machine of Examples.antt at a misaligned program counter.
use hdu_cpu_lab.Common.{◌-◌, ◌^◌, ◌≡◌, inl, refl, true, false, [], ◌∷◌, some, arith}
use hdu_cpu_lab.Common.Run.{abort, within}
use hdu_cpu_lab.Device.Mem.{Mem}
use hdu_cpu_lab.Device.Mem.Laws.{mem_dev}
use hdu_cpu_lab.Priv.{is_bare}
use hdu_cpu_lab.Priv.Registers.{
  reset, pre_exec, check_and_raise_int, pending_int, int2index, post_exec, raise_trap,
  trap_to_machine,
}
use hdu_cpu_lab.Bus.Access.{IsFlat, Holds}
use hdu_cpu_lab.Core.Alu.{alu_div, alu_rem, alu_exec, alu_switch, quotient, remainder}
use hdu_cpu_lab.Core.Alu.Division.{Divides, div-Divides}
use hdu_cpu_lab.Core.State.{
  Core, trap, remember, shorten, dump_pc_history, store_switch, load_switch,
}
use hdu_cpu_lab.Core.{rv_core, jump, exec, fetch, finish, interrupts}
use hdu_cpu_lab.Core.Unfetched.{unfetched-abort}
use hdu_cpu_lab.Core.ReadBack.{Returns, sh_lhu, store_switch-load_switch}
use hdu_cpu_lab.Examples.{config, entry, at_start, core_of}
use hdu_cpu_lab.Examples.Buses.{bus-IsFlat}

-- -7 by 2 is -3, and -1 is left.
division :
    (alu_exec (2 ^ 64 - 7) 2 alu_div false ≡ some (2 ^ 64 - 3))
    × (alu_exec (2 ^ 64 - 7) 2 alu_rem false ≡ some (2 ^ 64 - 1))
unfolding alu_exec alu_switch quotient remainder
division = (refl, refl)

div-Divides_example : Divides (2 ^ 64 - 7) 2
div-Divides_example = div-Divides (2 ^ 64 - 7) 2 (omega arith) (omega arith)

at_start-bare : is_bare at_start.priv.csrs ≡ true
unfolding rv_core jump reset
at_start-bare = refl

at_start-IsFlat : IsFlat at_start.priv.mmu.bus
unfolding rv_core jump
at_start-IsFlat = bus-IsFlat

-- SH of 0x1abcd and LHU of it.
store_switch-load_switch_example :
    Returns config at_start at_start-bare at_start-IsFlat 0x80000008 0x1abcd refl
      (λ a. store_switch config 1 a 0x1abcd)
      (load_switch 5 3)
      2
      (λ x. x)
      3
unfolding rv_core jump reset Holds
store_switch-load_switch_example =
    store_switch-load_switch config at_start at_start-bare at_start-IsFlat 0x80000008 0x1abcd refl
      sh_lhu 3 entry refl (omega arith) (inl refl, omega arith, omega arith, omega arith)

abbrev astray : Core Mem
astray = jump 0x80000002 at_start

abbrev trapped : Core Mem
trapped = core_of (exec config false false false false astray)

histories : (trapped.trace ≡ 0x80000002 ∷ []) × (trapped.inst_trace ≡ [])
unfolding exec rv_core jump within pre_exec check_and_raise_int pending_int int2index reset fetch
    interrupts finish trap raise_trap trap_to_machine post_exec remember shorten
histories = (refl, refl)

unfetched-abort_example : dump_pc_history trapped ≡ abort
unfolding exec rv_core jump within pre_exec check_and_raise_int pending_int int2index reset fetch
    interrupts finish trap raise_trap trap_to_machine post_exec remember
unfetched-abort_example =
    unfetched-abort config false false false false astray trapped (λ h. absurd (omega arith)) refl
      (omega arith) refl
