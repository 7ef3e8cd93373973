-- ===== src/Sram/Merge.antt =====
-- The writes of the data channel, difftest/src/nscscc_sram_slave.hpp, to a memory behind the crossbar of
-- difftest/src/nscscc_sram_xbar.hpp.
use hdu_cpu_lab.Common.{
  ℕ, bit_and, ◌+◌, ◌-◌, ◌%◌, ◌^◌, ◌≤◌, ◌<◌, ◌≡◌, ◌≢◌, refl, ◌∙◌, sym, ap, subst, ◌⊎◌, inl, inr,
  Bool, false, Bool-cases, ==_refl, ◌==◌, ◌&&◌, ◌||◌, some, List, [], ◌∷◌, ◌++◌, take, drop, length,
  get_or, take-drop, length-take, length-drop, get_or-take, get_or-drop, ltb, leb, if◌then◌else◌,
  arith,
}
use hdu_cpu_lab.Common.Words.{sub64, test_bit}
use hdu_cpu_lab.Common.Bytes.{
  to_bytes, from_bytes, length-to_bytes, from_bytes-to_bytes, write_bytes, write_bytes_inside,
  write_bytes_outside,
}
use hdu_cpu_lab.Common.Run.{Ran, ret, ◌>>=◌, >>=-ret, within-ret}
use hdu_cpu_lab.Device.{done}
use hdu_cpu_lab.Device.Mem.{Mem, do_write, written}
use hdu_cpu_lab.Device.Mem.Laws.{mem_dev, do_write-inside}
use hdu_cpu_lab.Bus.{put}
use hdu_cpu_lab.Sram.Slave.{
  Slave, on_impl, set_impl, set_pin, write_ranges, write_channel, strb_to_range,
}
use hdu_cpu_lab.Sram.Xbar.{Port, Xbar, port_of, xbar_slave}
use hdu_cpu_lab.Sram.Xbar
use hdu_cpu_lab.Sram.Strobe.{in_ranges, Separated, strb_to_range-Separated}

-- The eight bytes from `base` lie in the memory behind the port, from its cell `off` on.
pub record IsLane (base : ℕ) (p : Port) (off : ℕ) (x : Xbar Mem) : Type 0 where
  pub ported :
      (addr len : ℕ) → addr + len ≤ 8 → 0 < len → port_of x.devices (base + addr) len ≡ some p
  pub offset : (addr : ℕ) → addr < 8 → (base + addr) % sub64 p.limit p.base ≡ off + addr
  pub room : off + 8 ≤ (x.dev p.dev).mem_size
  pub small : (x.dev p.dev).mem_size < 2 ^ 64

-- The address of the lane that the data channel writes to.
abbrev pub lane_base : Slave (Xbar Mem) → ℕ
lane_base c = bit_and (bit_and c.pin.data_sram_addr c.address_mask) 0xfffffff8

-- From `x` to `y` the bytes of the lane that `chosen` selects become those of `bytes`, and nothing else
-- of the memory changes, nor do the other devices.
pub record IsMerge (p : Port) (off : ℕ) (chosen : ℕ → Bool) (bytes : List ℕ) (x y : Xbar Mem)
    : Type 0 where
  pub same_ports : y.devices ≡ x.devices
  pub same_size : (y.dev p.dev).mem_size ≡ (x.dev p.dev).mem_size
  pub lane :
      (i : ℕ)
      → i < 8
      → (y.dev p.dev).cell (off + i)
        ≡ (if chosen i then get_or bytes i 0 else (x.dev p.dev).cell (off + i))
  pub outside : (c : ℕ) → (c < off) ⊎ (off + 8 ≤ c) → (y.dev p.dev).cell c ≡ (x.dev p.dev).cell c
  pub others : (k : ℕ) → k ≢ p.dev → y.dev k ≡ x.dev k

ported_write :
    (x : Xbar Mem) (a n : ℕ) (buffer : List ℕ) (p : Port) {m : Mem}
    → port_of x.devices a n ≡ some p
    → do_write (x.dev p.dev) (a % sub64 p.limit p.base) (take n buffer) ≡ done m
    → Xbar.do_write a n buffer x ≡ ret buffer (record x { dev = put x.dev p.dev m })
ported_write x a n buffer p r d = unfold Xbar.do_write in rw (r, Xbar.do_write, d)

module _ (base : ℕ) (p : Port) (off : ℕ) (bytes : List ℕ) (full : length bytes ≡ 8) where
  abbrev slice : ℕ → ℕ → List ℕ
  slice addr len = take len (drop addr bytes)

  length-slice : (addr len : ℕ) → addr + len ≤ 8 → length (slice addr len) ≡ len
  length-slice addr len h =
      let e = length-drop addr bytes (omega arith) in
      length-take len (drop addr bytes) (omega arith)

  abbrev wrote : Xbar Mem → ℕ → ℕ → Xbar Mem
  wrote x addr len = record x {
    dev = put x.dev p.dev (written (x.dev p.dev) (off + addr) (slice addr len));
  }

  wrote-here :
      (x : Xbar Mem) (addr len : ℕ)
      → (wrote x addr len).dev p.dev ≡ written (x.dev p.dev) (off + addr) (slice addr len)
  wrote-here x addr len =
      ap (λ b. if b then written (x.dev p.dev) (off + addr) (slice addr len) else x.dev p.dev)
        (==_refl p.dev)

  write_one :
      (x : Xbar Mem) (addr len : ℕ)
      → IsLane base p off x
      → addr + len ≤ 8
      → 0 < len
      → Xbar.do_write (base + addr) len (drop addr bytes) x
        ≡ ret (drop addr bytes) (wrote x addr len)
  write_one x addr len l h w =
      let e = length-slice addr len h in
      let r = l.room in
      ported_write x (base + addr) len (drop addr bytes) p (l.ported addr len h w) (
        ap (λ a. do_write (x.dev p.dev) a (slice addr len)) (l.offset addr (omega arith))
        ∙ do_write-inside (x.dev p.dev) (off + addr) (slice addr len) (omega arith) l.small)

  wrote-IsLane :
      (x : Xbar Mem) (addr len : ℕ) → IsLane base p off x → IsLane base p off (wrote x addr len)
  wrote-IsLane x addr len l = record {
    ported = l.ported;
    offset = l.offset;
    room = subst (λ (m : Mem). off + 8 ≤ m.mem_size) (sym (wrote-here x addr len)) l.room;
    small = subst (λ (m : Mem). m.mem_size < 2 ^ 64) (sym (wrote-here x addr len)) l.small;
  }

  slice_cell :
      (cell : ℕ → ℕ) (addr len i : ℕ)
      → addr + len ≤ 8
      → write_bytes cell (off + addr) (slice addr len) (off + i)
        ≡ (if leb addr i && ltb i (addr + len) then get_or bytes i 0 else cell (off + i))
  slice_cell cell addr len i h = elim (Bool-cases (leb addr i && ltb i (addr + len))) [
    | inl within ↦
        let e = length-slice addr len h in
        let below : addr ≤ i = ground arith in
        let above : i < addr + len = ground arith in
        let at : off + i ≡ off + addr + (i - addr) = omega arith in
        let back : addr + (i - addr) ≡ i = omega arith in
        rw within (
          ap (write_bytes cell (off + addr) (slice addr len)) at
          ∙ write_bytes_inside cell (off + addr) (slice addr len) (i - addr) (omega arith)
          ∙ get_or-take len (i - addr) (drop addr bytes) 0 (omega arith)
          ∙ get_or-drop addr (i - addr) bytes 0
          ∙ ap (λ k. get_or bytes k 0) back)
    | inr without ↦
        let e = length-slice addr len h in
        let apart : (off + i < off + addr) ⊎ (off + addr + length (slice addr len) ≤ off + i) =
          ground arith in
        rw without (write_bytes_outside cell (off + addr) (slice addr len) (off + i) apart)
  ]

  wrote-IsMerge :
      (x : Xbar Mem) (addr len : ℕ)
      → addr + len ≤ 8
      → IsMerge p off (λ i. leb addr i && ltb i (addr + len)) bytes x (wrote x addr len)
  wrote-IsMerge x addr len h = record {
    same_ports = refl;
    same_size = ap (λ m. m.mem_size) (wrote-here x addr len);
    lane = λ i q.
        ap (λ m. m.cell (off + i)) (wrote-here x addr len)
        ∙ slice_cell (x.dev p.dev).cell addr len i h;
    outside = λ c q.
        let e = length-slice addr len h in
        ap (λ m. m.cell c) (wrote-here x addr len)
        ∙ write_bytes_outside (x.dev p.dev).cell (off + addr) (slice addr len) c (omega arith);
    others = λ k q. ground arith;
  }

  both-IsMerge :
      (f g : ℕ → Bool) (x y z : Xbar Mem)
      → IsMerge p off f bytes x y
      → IsMerge p off g bytes y z
      → IsMerge p off (λ i. f i || g i) bytes x z
  both-IsMerge f g x y z h k = record {
    same_ports = k.same_ports ∙ h.same_ports;
    same_size = k.same_size ∙ h.same_size;
    lane = λ i q. let a = h.lane i q in let b = k.lane i q in ground arith;
    outside = λ c q. k.outside c q ∙ h.outside c q;
    others = λ j q. k.others j q ∙ h.others j q;
  }

  -- All the ranges.
  pub write_ranges-IsMerge :
      (lo : ℕ) (rs : List (ℕ × ℕ)) (x : Xbar Mem)
      → Separated lo rs
      → IsLane base p off x
      → (y : Xbar Mem) × (write_ranges base bytes rs x ≡ ret bytes y)
        × IsMerge p off (λ i. in_ranges i rs) bytes x y
  unfolding write_ranges in_ranges
  write_ranges-IsMerge lo [] x sep l = (
    x,
    refl,
    record {
      same_ports = refl;
      same_size = refl;
      lane = λ i q. refl;
      outside = λ c q. refl;
      others = λ k q. refl;
    },
  )
  write_ranges-IsMerge lo ((addr, len) ∷ rs) x (from, more, upto, sep) l =
      let (y, e, m) =
        write_ranges-IsMerge (addr + len + 1) rs (wrote x addr len) sep
          (wrote-IsLane x addr len l) in
      (
        y,
        >>=-ret (Xbar.do_write (base + addr) len (drop addr bytes))
              (λ after. write_ranges base (take addr bytes ++ after) rs) x
              (write_one x addr len l upto more)
            ∙ ap (λ bs. write_ranges base bs rs (wrote x addr len)) (take-drop addr bytes)
            ∙ e,
        both-IsMerge _ (λ i. in_ranges i rs) x (wrote x addr len) y (wrote-IsMerge x addr len upto)
            m,
      )

-- Only the selection within the lane counts.
pub choose-IsMerge :
    (p : Port) (off : ℕ) (f g : ℕ → Bool) (bytes : List ℕ) (x y : Xbar Mem)
    → ((i : ℕ) → i < 8 → f i ≡ g i)
    → IsMerge p off f bytes x y
    → IsMerge p off g bytes x y
choose-IsMerge p off f g bytes x y same h = record {
  same_ports = h.same_ports;
  same_size = h.same_size;
  lane = λ i q.
      h.lane i q
      ∙ ap (λ b. if b then get_or bytes i 0 else (x.dev p.dev).cell (off + i)) (same i q);
  outside = h.outside;
  others = h.others;
}

-- The writes of the data channel into a lane of eight bytes that a memory holds.
pub write_channel-IsMerge :
    (c : Slave (Xbar Mem)) (p : Port) (off : ℕ)
    → c.pin.data_sram_wen ≢ 0
    → c.pin.data_sram_wdata < 2 ^ 64
    → IsLane (lane_base c) p off c.impl
    → (y : Xbar Mem) × (write_channel c ≡ ret tt (set_impl y c))
      × IsMerge p off (test_bit c.pin.data_sram_wen) (to_bytes 8 c.pin.data_sram_wdata) c.impl y
unfolding write_channel
write_channel-IsMerge c p off w wide l =
    let (sep, cover) = strb_to_range-Separated c.pin.data_sram_wen in
    let (y, e, m) =
      write_ranges-IsMerge (lane_base c) p off bytes (length-to_bytes 8 c.pin.data_sram_wdata) 0
        (strb_to_range c.pin.data_sram_wen) c.impl sep l in
    (
      y,
      ap (λ x. if x then ret tt c else stores c) some_set
          ∙ stored y e
          ∙ ap (λ v. ret tt (record c { impl = y; pin = record c.pin { data_sram_wdata = v } }))
              (from_bytes-to_bytes 8 c.pin.data_sram_wdata wide),
      choose-IsMerge p off _ (test_bit c.pin.data_sram_wen) bytes c.impl y cover m,
    )
  where
    bytes : List ℕ
    bytes = to_bytes 8 c.pin.data_sram_wdata

    some_set : (c.pin.data_sram_wen == 0) ≡ false
    some_set = ground arith

    writes : Xbar Mem → Ran (Xbar Mem) (List ℕ)
    writes = write_ranges (lane_base c) bytes (strb_to_range c.pin.data_sram_wen)

    stores : Slave (Xbar Mem) → Ran (Slave (Xbar Mem)) (Unit {0})
    stores = do
      after ← on_impl writes
      set_pin (record c.pin { data_sram_wdata = from_bytes after })

    after : Xbar Mem → Slave (Xbar Mem)
    after y = record c { impl = y; pin = record c.pin { data_sram_wdata = from_bytes bytes } }

    stored : (y : Xbar Mem) → writes c.impl ≡ ret bytes y → stores c ≡ ret tt (after y)
    stored y e =
        >>=-ret (on_impl writes) (λ b. set_pin (record c.pin { data_sram_wdata = from_bytes b })) c
          (within-ret (λ s. s.impl) set_impl writes c e)
