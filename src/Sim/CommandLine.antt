-- ===== src/Sim/CommandLine.antt =====
-- The command line in `main` of difftest/src/sim_mycpu.cpp.
use hdu_cpu_lab.Common.{ℕ, Bool, true, ◌||◌, Option, none, some, List, [], ◌∷◌, if◌then◌else◌}
use Prim.Native.String.{String}
use text.Mathlib.Text.{◌==◌}
use hdu_cpu_lab.Sim.State.{Flags, flags}

pub data RunMode : Type 0 where
  nop riscv_test cpu_trace : RunMode

-- What the loop over argv sets; `file_load_path` is not initialised.
pub record Options : Type 0 where
  pub flags : Flags
  pub run_mode : RunMode
  pub file_load_path : Option String

unfoldable pub no_options : Options
no_options = record { flags = flags; run_mode = riscv_test; file_load_path = none }

abbrev pub with_flags : (Flags → Flags) → Options → Options
with_flags f o = record o { flags = f o.flags }

-- The chain of tests, but for the number that may follow an option.
unfoldable pub set_option : String → Options → Options
set_option arg o =
    if arg == "-trace"
    then with_flags (λ f. record f { trace_on = true }) o
    else if arg == "-starttrace"
    then o
    else if arg == "-rvtest"
    then record o { flags = record o.flags { run_riscv_test = true }; run_mode = riscv_test }
    else if arg == "-perf"
    then with_flags (λ f. record f { perf_counter = true }) o
    else if arg == "-pc"
    then with_flags (λ f. record f { dump_pc_history = true }) o
    else if arg == "-printpc"
    then with_flags (λ f. record f { print_pc = true }) o
    else if arg == "-delay"
    then with_flags (λ f. record f { should_delay = true }) o
    else if arg == "-cpu_trace"
    then record o { run_mode = cpu_trace }
    else if arg == "-initgprs"
    then with_flags (λ f. record f { init_gprs = true }) o
    else if arg == "-writeappend"
    then with_flags (λ f. record f { write_append = true }) o
    else if arg == "-hasdelayslot"
    then with_flags (λ f. record f { has_delayslot = true }) o
    else if arg == "-onlymodem"
    then with_flags (λ f. record f { only_mode_m = true }) o
    else record o { file_load_path = some arg }

abbrev pub takes_number : String → Bool
takes_number arg = arg == "-trace" || arg == "-starttrace"

-- `sscanf(arg, "%lu", &x)` sets `x` where the text begins with a number.
abbrev pub set_number : String → Option ℕ → Options → Options
set_number arg none o = o
set_number arg (some n) o =
    if arg == "-trace"
    then with_flags (λ f. record f { sim_time = n }) o
    else with_flags (λ f. record f { trace_start_time = n }) o

-- The loop over the arguments from argv[1] on; `scan` is sscanf.
unfoldable pub parse : (String → Option ℕ) → List String → Options → Options
unfolding set_option
parse scan [] o = o
parse scan (arg ∷ []) o = set_option arg o
parse scan (arg ∷ next ∷ args) o =
    let behind = parse scan args (set_number arg (scan next) (set_option arg o)) in
    let here = parse scan (next ∷ args) (set_option arg o) in
    if takes_number arg then behind else here
