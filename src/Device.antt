-- ===== src/Device.antt =====
-- The device interface of difftest/src/mmio_dev.hpp, which the system bus calls, and its three
-- implementations: memory, CLINT and PLIC.
--
-- The buffer of a read is the list of bytes that the device stores at its start, that of a write the
-- list of bytes handed over, whose length is the argument `size`.
pub mod Mem
pub mod Clint
pub mod Plic
use hdu_cpu_lab.Common.{ℕ, ◌≡◌, List, length}

-- `done` is a call that returns true, `refused` one that returns false and changes nothing. `fault`
-- is undefined behaviour: an access outside an array, or a division by zero.
pub data Outcome {ℓ} (A : Type ℓ) : Type ℓ where
  done : A → Outcome A
  refused fault : Outcome A

-- class mmio_dev. A read may change the device, as the PLIC's claim does.
pub record MmioDev (D : Type 0) : Type 0 where
  pub do_read : D → ℕ → ℕ → Outcome (List ℕ × D)
  pub do_write : D → ℕ → List ℕ → Outcome D
  pub length-do_read :
      (d : D) (start_addr size : ℕ) {bytes : List ℕ} {d' : D}
      → do_read d start_addr size ≡ done (bytes, d')
      → length bytes ≡ size
