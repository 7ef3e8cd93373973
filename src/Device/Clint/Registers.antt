-- ===== src/Device/Clint/Registers.antt =====
-- The registers of difftest/src/rv_clint.hpp at their addresses.
use hdu_cpu_lab.Common.{
  ℕ, zero, suc, ◌+◌, ◌*◌, ◌%◌, ◌^◌, ◌<◌, ◌≡◌, ◌≢◌, refl, ap, List, length, get_or, arith, replicate,
}
use hdu_cpu_lab.Common.Bytes.{to_bytes, from_bytes}
use hdu_cpu_lab.Device.{done}
use hdu_cpu_lab.Device.Clint.{Clint, do_read, do_write, rv_clint, tick}

-- Arrays of nr_hart words, of 64 bits and of one, that do not reach the address of the time.
pub record IsClint (c : Clint) : Type 0 where
  pub few : c.nr_hart < 4096
  pub timers : length c.mtimecmp ≡ c.nr_hart
  pub softs : length c.msip ≡ c.nr_hart
  pub time_fits : c.mtime < 256 ^ 8
  pub timers_fit : (k : ℕ) → get_or c.mtimecmp k 0 < 256 ^ 8
  pub softs_fit : (k : ℕ) → get_or c.msip k 0 < 2

-- The registers, by hart; their addresses, their sizes in bytes and their values.
pub data Register : Type 0 where
  msip_of mtimecmp_of : ℕ → Register
  the_time : Register

abbrev pub address : Register → ℕ
address (msip_of h) = 4 * h
address (mtimecmp_of h) = 0x4000 + 8 * h
address the_time = 0xbff8

abbrev pub size_of : Register → ℕ
size_of (msip_of h) = 4
size_of (mtimecmp_of h) = 8
size_of the_time = 8

abbrev pub value : Clint → Register → ℕ
value c (msip_of h) = get_or c.msip h 0
value c (mtimecmp_of h) = get_or c.mtimecmp h 0
value c the_time = c.mtime

-- What a register keeps of a number: one bit of a software interrupt.
abbrev pub kept : Register → ℕ → ℕ
kept (msip_of h) v = v % 2
kept (mtimecmp_of h) v = v
kept the_time v = v

abbrev pub Exists : Clint → Register → Type 0
Exists c (msip_of h) = h < c.nr_hart
Exists c (mtimecmp_of h) = h < c.nr_hart
Exists c the_time = Unit {0}

-- The outcome of a write of `bytes` to a register.
pub record Stores (c : Clint) (r : Register) (bytes : List ℕ) : Type 0 where
  pub after : Clint
  pub writes : do_write c (address r) bytes ≡ done after
  pub well_formed : IsClint after
  pub holds : value after r ≡ kept r (from_bytes bytes)
  pub others : (q : Register) → q ≢ r → value after q ≡ value c q
  pub reads :
      do_read after (address r) (size_of r) ≡ done (to_bytes (size_of r) (value after r), after)

get_or-zeros : (n k : ℕ) → get_or {A = ℕ} (replicate n 0) k 0 ≡ 0
get_or-zeros zero k = refl
get_or-zeros (suc n) zero = refl
get_or-zeros (suc n) (suc k) = get_or-zeros n k

length-zeros : (n : ℕ) → length {A = ℕ} (replicate n 0) ≡ n
length-zeros zero = refl
length-zeros (suc n) = ap suc (length-zeros n)

pub rv_clint-IsClint : (nr_hart : ℕ) → nr_hart < 4096 → IsClint (rv_clint nr_hart)
unfolding rv_clint
rv_clint-IsClint n h = record {
  few = h;
  timers = length-zeros n;
  softs = length-zeros n;
  time_fits = omega arith;
  timers_fit = λ k. rw (get_or-zeros n k) (omega arith);
  softs_fit = λ k. rw (get_or-zeros n k) (omega arith);
}

pub tick-IsClint : (c : Clint) → IsClint c → IsClint (tick c)
unfolding tick
tick-IsClint c ok = record {
  few = ok.few;
  timers = ok.timers;
  softs = ok.softs;
  time_fits = omega arith;
  timers_fit = ok.timers_fit;
  softs_fit = ok.softs_fit;
}
