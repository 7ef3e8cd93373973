-- ===== src/Device/Clint/Programmed.antt =====
-- Writes and reads of the registers of difftest/src/rv_clint.hpp.
use hdu_cpu_lab.Common.{
  ℕ, zero, suc, ◌+◌, ◌-◌, ◌*◌, ◌%◌, ◌^◌, ◌≤◌, ◌<◌, ◌≡◌, ◌≢◌, refl, sym, ap, ◌∙◌, subst, List, [],
  ◌∷◌, map, length, get_or, set, length-set, get_or-set_self, get_or-set_ne, arith, ℕ_discrete,
}
use native.Mathlib.Nat.{mul-suc, mul-le-mul_left, pow-suc}
use hdu_cpu_lab.Common.Bytes.{to_bytes, from_bytes}
use hdu_cpu_lab.Device.{done}
use hdu_cpu_lab.Device.Clint.{Clint, copy_in, copy_out, set_mtimecmp, set_msip, do_read, do_write}
use hdu_cpu_lab.Device.Clint.Array.{read_bytes-cells, words-write}
use hdu_cpu_lab.Device.Clint.Timer.{do_write-mtime}
use hdu_cpu_lab.Device.Clint.Registers.{
  IsClint, Register, msip_of, mtimecmp_of, the_time, size_of, value, Exists, Stores,
}

module _ (w : ℕ) (positive : 0 < w) (xs : List ℕ) (h : ℕ) (inside : h < length xs) where
  in_array : w * h + w ≤ w * length xs
  in_array = omega (arith, mul-suc w h, mul-le-mul_left w inside)

  copy_in-set :
      (bytes : List ℕ)
      → ((k : ℕ) → get_or xs k 0 < 256 ^ w)
      → length bytes ≡ w
      → copy_in w xs (w * h) bytes ≡ done (set xs h (from_bytes bytes))
  unfolding copy_in
  copy_in-set bytes fits width =
      let room = in_array in
      let new = words-write w xs h bytes positive fits inside width in ground (arith, new)

  copy_out-get : (c : Clint) → copy_out w xs (w * h) w c ≡ done (to_bytes w (get_or xs h 0), c)
  unfolding copy_out
  copy_out-get c =
      let room = in_array in let word = read_bytes-cells w positive xs h in ground (arith, word)

from_bytes-bound : (bs : List ℕ) → ((i : ℕ) → get_or bs i 0 < 256) → from_bytes bs < 256 ^ length bs
unfolding from_bytes
from_bytes-bound [] h = omega arith
from_bytes-bound (b ∷ bs) h =
    omega (arith, h zero, pow-suc 256 (length bs), from_bytes-bound bs (λ i. h (suc i)))

length-low : (xs : List ℕ) → length (map (λ x. x % 2) xs) ≡ length xs
length-low [] = refl
length-low (x ∷ xs) = ap suc (length-low xs)

get_or-low : (xs : List ℕ) (k : ℕ) → get_or (map (λ x. x % 2) xs) k 0 ≡ get_or xs k 0 % 2
get_or-low [] k = refl
get_or-low (x ∷ xs) zero = refl
get_or-low (x ∷ xs) (suc k) = get_or-low xs k

-- Which array an address leads to.
module _ (c : Clint) (few : c.nr_hart < 4096) where
  write-timer :
      (h : ℕ) (bytes : List ℕ)
      → h < c.nr_hart
      → length bytes ≡ 8
      → do_write c (0x4000 + 8 * h) bytes ≡ set_mtimecmp c (copy_in 8 c.mtimecmp (8 * h) bytes)
  unfolding do_write
  write-timer h bytes p width =
      let place : 0x4000 + 8 * h - 0x4000 ≡ 8 * h = omega arith in
      let room : 0x4000 + 8 * h + length bytes < 0x4000 + 8 * 4096 = omega arith in
      ground (arith, ap (λ o. set_mtimecmp c (copy_in 8 c.mtimecmp o bytes)) place)

  read-timer :
      (h : ℕ) → h < c.nr_hart → do_read c (0x4000 + 8 * h) 8 ≡ copy_out 8 c.mtimecmp (8 * h) 8 c
  unfolding do_read
  read-timer h p =
      let place : 0x4000 + 8 * h - 0x4000 ≡ 8 * h = omega arith in
      ground (arith, ap (λ o. copy_out 8 c.mtimecmp o 8 c) place)

  write-soft :
      (h : ℕ) (bytes : List ℕ)
      → h < c.nr_hart
      → length bytes ≡ 4
      → do_write c (4 * h) bytes ≡ set_msip c (copy_in 4 c.msip (4 * h) bytes)
  unfolding do_write
  write-soft h bytes p width = ground arith

  read-soft : (h : ℕ) → h < c.nr_hart → do_read c (4 * h) 4 ≡ copy_out 4 c.msip (4 * h) 4 c
  unfolding do_read
  read-soft h p = ground arith

read-time : (c : Clint) → do_read c 0xbff8 8 ≡ done (to_bytes 8 c.mtime, c)
unfolding do_read
read-time c = copy_out-get 8 (omega arith) (c.mtime ∷ []) 0 (omega arith) c

set-fits :
    (xs : List ℕ) (h v bound : ℕ)
    → h < length xs
    → ((k : ℕ) → get_or xs k 0 < bound)
    → v < bound
    → (k : ℕ) → get_or (set xs h v) k 0 < bound
set-fits xs h v bound inside fits small k = elim (ℕ_discrete h k) [
  | yes e ↦
      subst (λ j. get_or (set xs h v) j 0 < bound) e (rw (get_or-set_self xs h v 0 inside) small)
  | no n ↦ rw (get_or-set_ne xs h k v 0 n) (fits k)
]

module _ (c : Clint) (ok : IsClint c) (bytes : List ℕ)
    (octets : (i : ℕ) → get_or bytes i 0 < 256) where
  -- The word that is written fits its register.
  word-bound : (w : ℕ) → length bytes ≡ w → from_bytes bytes < 256 ^ w
  word-bound w width = subst (λ n. from_bytes bytes < 256 ^ n) width (from_bytes-bound bytes octets)

  timer-Stores : (h : ℕ) → h < c.nr_hart → length bytes ≡ 8 → Stores c (mtimecmp_of h) bytes
  timer-Stores h p width = record {
    after = d;
    writes =
        write-timer c ok.few h bytes p width
        ∙ ap (set_mtimecmp c)
            (copy_in-set 8 (omega arith) c.mtimecmp h inside bytes ok.timers_fit width);
    well_formed = record {
      few = ok.few;
      timers = length-set c.mtimecmp h v ∙ ok.timers;
      softs = ok.softs;
      time_fits = ok.time_fits;
      timers_fit = set-fits c.mtimecmp h v (256 ^ 8) inside ok.timers_fit (word-bound 8 width);
      softs_fit = ok.softs_fit;
    };
    holds = get_or-set_self c.mtimecmp h v 0 inside;
    others = same;
    reads =
        read-timer d ok.few h p
        ∙ copy_out-get 8 (omega arith) d.mtimecmp h
            (subst (λ n. h < n) (sym (length-set c.mtimecmp h v)) inside) d;
  }
    where
      v : ℕ
      v = from_bytes bytes

      d : Clint
      d = record c { mtimecmp = set c.mtimecmp h v }

      inside : h < length c.mtimecmp
      inside = subst (λ n. h < n) (sym ok.timers) p

      same : (q : Register) → q ≢ mtimecmp_of h → value d q ≡ value c q
      same (msip_of k) n = refl
      same (mtimecmp_of k) n = get_or-set_ne c.mtimecmp h k v 0 (λ e. n (ap mtimecmp_of (sym e)))
      same the_time n = refl

  soft-Stores : (h : ℕ) → h < c.nr_hart → length bytes ≡ 4 → Stores c (msip_of h) bytes
  soft-Stores h p width = record {
    after = d;
    writes =
        write-soft c ok.few h bytes p width
        ∙ ap (set_msip c) (
            copy_in-set 4 (omega arith) c.msip h inside bytes (λ k. omega (arith, ok.softs_fit k))
              width);
    well_formed = record {
      few = ok.few;
      timers = ok.timers;
      softs = long ∙ ok.softs;
      time_fits = ok.time_fits;
      timers_fit = ok.timers_fit;
      softs_fit = λ k. rw (get_or-low (set c.msip h v) k) (omega arith);
    };
    holds = get_or-low (set c.msip h v) h ∙ ap (λ x. x % 2) (get_or-set_self c.msip h v 0 inside);
    others = same;
    reads =
        read-soft d ok.few h p
        ∙ copy_out-get 4 (omega arith) d.msip h (subst (λ n. h < n) (sym long) inside) d;
  }
    where
      v : ℕ
      v = from_bytes bytes

      d : Clint
      d = record c { msip = map (λ x. x % 2) (set c.msip h v) }

      inside : h < length c.msip
      inside = subst (λ n. h < n) (sym ok.softs) p

      long : length d.msip ≡ length c.msip
      long = length-low (set c.msip h v) ∙ length-set c.msip h v

      same : (q : Register) → q ≢ msip_of h → value d q ≡ value c q
      same (msip_of k) n =
          get_or-low (set c.msip h v) k
          ∙ ap (λ x. x % 2) (get_or-set_ne c.msip h k v 0 (λ e. n (ap msip_of (sym e))))
          ∙ omega (arith, ok.softs_fit k)
      same (mtimecmp_of k) n = refl
      same the_time n = refl

  time-Stores : length bytes ≡ 8 → Stores c the_time bytes
  time-Stores width = record {
    after = record c { mtime = from_bytes bytes };
    writes = do_write-mtime c bytes width;
    well_formed = record {
      few = ok.few;
      timers = ok.timers;
      softs = ok.softs;
      time_fits = word-bound 8 width;
      timers_fit = ok.timers_fit;
      softs_fit = ok.softs_fit;
    };
    holds = refl;
    others = same;
    reads = read-time (record c { mtime = from_bytes bytes });
  }
    where
      same :
          (q : Register)
          → q ≢ the_time
          → value (record c { mtime = from_bytes bytes }) q ≡ value c q
      same (msip_of k) n = refl
      same (mtimecmp_of k) n = refl
      same the_time n = absurd (n refl)

  -- A write of as many bytes as the register has, to the address of any register of a well-formed CLINT
  -- (the software interrupt or the timer of one of its harts, or the time), succeeds and keeps the
  -- CLINT well formed. The register then holds the number that the bytes are, a software interrupt its
  -- lowest bit, every other register keeps its value, and a read of the register gives its bytes.
  pub do_write-Stores : (r : Register) → Exists c r → length bytes ≡ size_of r → Stores c r bytes
  do_write-Stores (msip_of h) p width = soft-Stores h p width
  do_write-Stores (mtimecmp_of h) p width = timer-Stores h p width
  do_write-Stores the_time p width = time-Stores width
