-- ===== src/Examples/Timers.antt =====
-- The registers of a CLINT with two harts.
use hdu_cpu_lab.Common.{ℕ, zero, suc, ◌<◌, refl, List, [], ◌∷◌, arith, get_or}
use hdu_cpu_lab.Device.Clint.{Clint, rv_clint, tick}
use hdu_cpu_lab.Device.Clint.Registers.{Stores, msip_of, rv_clint-IsClint, tick-IsClint}
use hdu_cpu_lab.Device.Clint.Programmed.{do_write-Stores}

abbrev clint : Clint
clint = tick (rv_clint 2)

abbrev three : List ℕ
three = 3 ∷ 0 ∷ 0 ∷ 0 ∷ []

octets : (i : ℕ) → get_or three i 0 < 256
octets zero = omega arith
octets (suc zero) = omega arith
octets (suc (suc zero)) = omega arith
octets (suc (suc (suc zero))) = omega arith
octets (suc (suc (suc (suc i)))) = omega arith

-- The software interrupt of the second hart.
do_write-Stores_example : Stores clint (msip_of 1) three
unfolding rv_clint tick
do_write-Stores_example =
    do_write-Stores clint (tick-IsClint (rv_clint 2) (rv_clint-IsClint 2 (omega arith))) three
      octets (msip_of 1) (omega arith) refl
