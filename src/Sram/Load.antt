-- ===== src/Sram/Load.antt =====
-- The loads of the data channel, difftest/src/nscscc_sram_slave.hpp, from a memory behind the crossbar of
-- difftest/src/nscscc_sram_xbar.hpp.
use hdu_cpu_lab.Common.{
  ℕ, ◌+◌, ◌-◌, ◌%◌, ◌^◌, ◌≤◌, ◌<◌, ◌≡◌, ◌≢◌, refl, ◌∙◌, sym, ap, subst, fun_ext, inl, inr, Bool,
  true, false, Bool-cases, bit_and, none, some, List, length, get_or, leb, ◌==◌, ==_iff,
  if◌then◌else◌, arith,
}
use hdu_cpu_lab.Common.Words.{sub64, test_bit}
use hdu_cpu_lab.Common.Bits.{bit_and_low, bit_and_high}
use hdu_cpu_lab.Common.Bytes.{
  to_bytes, from_bytes, length-to_bytes, read_bytes, length-read_bytes, write_bytes,
  read_bytes-write_bytes,
}
use hdu_cpu_lab.Common.Run.{ret, ◌>>◌, >>=-ret, within-ret}
use hdu_cpu_lab.Device.{done}
use hdu_cpu_lab.Device.Mem.{Mem, do_read}
use hdu_cpu_lab.Device.Mem.Laws.{mem_dev, do_read-inside}
use hdu_cpu_lab.Bus.{put}
use hdu_cpu_lab.Sram.Slave.{
  Slave, on_impl, set_impl, set_pin, write_channel, read_channel, data_channel, strb_to_range,
}
use hdu_cpu_lab.Sram.Xbar.{Port, Xbar, port_of, store_at, xbar_slave}
use hdu_cpu_lab.Sram.Xbar
use hdu_cpu_lab.Sram.Strobe.{in_ranges, strb_to_range-Separated}
use hdu_cpu_lab.Sram.Merge.{IsLane, IsMerge, lane_base, write_channel-IsMerge}

-- A read of the crossbar that a port in the other mode than byte mode takes.
pub ported_read :
    (x : Xbar Mem) (a lo n : ℕ) (buffer : List ℕ) (p : Port) {bytes after : List ℕ} {m : Mem}
    → port_of x.devices a 1 ≡ some p
    → p.byte_mode ≡ false
    → a - bit_and a (n - 1) ≡ lo
    → do_read (x.dev p.dev) (lo % sub64 p.limit p.base) n ≡ done (bytes, m)
    → store_at buffer (lo % n) bytes ≡ some after
    → Xbar.do_read a n buffer x ≡ ret after (record x { dev = put x.dev p.dev m })
ported_read x a lo n buffer p r b c d e = unfold Xbar.do_read in rw (r, Xbar.do_read, b, c, d, e)

pub put_same : (dev : ℕ → Mem) (k : ℕ) → put dev k (dev k) ≡ dev
put_same dev k = fun_ext (λ j. ground arith)

-- Bytes that fill the buffer.
pub store_all :
    (buffer bytes : List ℕ) → length bytes ≡ length buffer → store_at buffer 0 bytes ≡ some bytes
unfolding store_at
store_all buffer bytes e =
    ap
      (λ n.
        if leb (0 + length bytes) n
        then some (read_bytes (write_bytes (λ k. get_or buffer k 0) 0 bytes) 0 n)
        else none)
      (sym e)
    ∙ (let r = read_bytes-write_bytes (λ k. get_or buffer k 0) 0 bytes in ground arith)

-- The address of a load.
abbrev pub load_addr : Slave (Xbar Mem) → ℕ
load_addr c = bit_and c.pin.data_sram_addr c.address_mask

lane_base-eq :
    (c : Slave (Xbar Mem)) → load_addr c < 2 ^ 32 → lane_base c ≡ load_addr c - load_addr c % 8
lane_base-eq c small = bit_and_high 3 29 (load_addr c) small

module _ (x : Xbar Mem) (a : ℕ) (p : Port) (off : ℕ) (l : IsLane (a - a % 8) p off x)
    (normal : p.byte_mode ≡ false) where
  lane_read :
      (buffer : List ℕ)
      → length buffer ≡ 8
      → Xbar.do_read a 8 buffer x ≡ ret (read_bytes (x.dev p.dev).cell off 8) x
  lane_read buffer full =
      let lo = a - a % 8 in
      let top : lo + a % 8 ≡ a = omega arith in
      let start : lo + 0 ≡ lo = omega arith in
      let none : off + 0 ≡ off = omega arith in
      ported_read x a lo 8 buffer p
        (ap (λ k. port_of x.devices k 1) (sym top) ∙ l.ported (a % 8) 1 (omega arith) (omega arith))
        normal (ap (λ k. a - k) (bit_and_low 3 a))
        (ap (λ k. do_read (x.dev p.dev) k 8)
            (ap (λ k. k % sub64 p.limit p.base) (sym start) ∙ l.offset 0 (omega arith) ∙ none)
          ∙ do_read-inside (x.dev p.dev) off 8 l.room l.small)
        (ap (λ k. store_at buffer k (read_bytes (x.dev p.dev).cell off 8))
            (let e : lo % 8 ≡ 0 = omega arith in e)
          ∙ store_all buffer _ (length-read_bytes (x.dev p.dev).cell off 8 ∙ sym full))
      ∙ ap (λ d. ret (read_bytes (x.dev p.dev).cell off 8) (record x { dev = d }))
          (put_same x.dev p.dev)

read_channel-lane :
    (c : Slave (Xbar Mem)) (p : Port) (off : ℕ)
    → p.byte_mode ≡ false
    → IsLane (load_addr c - load_addr c % 8) p off c.impl
    → read_channel c
      ≡ ret tt (record c {
        pin = record c.pin {
          data_sram_rdata = from_bytes (read_bytes (c.impl.dev p.dev).cell off 8);
        };
      })
unfolding read_channel
read_channel-lane c p off normal l =
    >>=-ret (on_impl (Xbar.do_read (load_addr c) 8 (to_bytes 8 c.pin.data_sram_rdata)))
      (λ b. set_pin (record c.pin { data_sram_rdata = from_bytes b })) c
      (within-ret (λ s. s.impl) set_impl _ c
        (lane_read c.impl (load_addr c) p off l normal (to_bytes 8 c.pin.data_sram_rdata)
          (length-to_bytes 8 c.pin.data_sram_rdata)))

opened :
    (c : Slave (Xbar Mem))
    → (c.pin.data_sram_en == 0) ≡ false
    → data_channel c ≡ (write_channel >> read_channel) c
opened c e = unfold data_channel in rw (e, data_channel)

-- A lane stays one when the memory behind it has the same size.
merged-IsLane :
    (base : ℕ) (p : Port) (off : ℕ) (f : ℕ → Bool) (bytes : List ℕ) (x y : Xbar Mem)
    → IsMerge p off f bytes x y
    → IsLane base p off x
    → IsLane base p off y
merged-IsLane base p off f bytes x y m l = record {
  ported =
      λ addr len h w. ap (λ ds. port_of ds (base + addr) len) m.same_ports ∙ l.ported addr len h w;
  offset = l.offset;
  room = subst (λ k. off + 8 ≤ k) (sym m.same_size) l.room;
  small = subst (λ k. k < 2 ^ 64) (sym m.same_size) l.small;
}

no_write : (c : Slave (Xbar Mem)) → (c.pin.data_sram_wen == 0) ≡ true → write_channel c ≡ ret tt c
no_write c e = unfold write_channel in rw (e, write_channel)

-- An empty strobe selects nothing.
no_bit : (i : ℕ) → i < 8 → test_bit 0 i ≡ false
unfolding strb_to_range in_ranges
no_bit i h = sym ((strb_to_range-Separated 0).1 i h)

-- The writes of the data channel, none at all included.
stores-IsMerge :
    (c : Slave (Xbar Mem)) (p : Port) (off : ℕ)
    → c.pin.data_sram_wdata < 2 ^ 64
    → IsLane (lane_base c) p off c.impl
    → (y : Xbar Mem) × (write_channel c ≡ ret tt (set_impl y c))
      × IsMerge p off (test_bit c.pin.data_sram_wen) (to_bytes 8 c.pin.data_sram_wdata) c.impl y
stores-IsMerge c p off wide l = elim (Bool-cases (c.pin.data_sram_wen == 0)) [
  | inr some_set ↦ write_channel-IsMerge c p off (λ e. ground arith) wide l
  | inl clear ↦ (
    c.impl,
    no_write c clear,
    record {
      same_ports = refl;
      same_size = refl;
      lane = λ i q.
          ap
            (λ b.
              if b
              then get_or (to_bytes 8 c.pin.data_sram_wdata) i 0
              else (c.impl.dev p.dev).cell (off + i))
            (sym (ap (λ w. test_bit w i) ((==_iff c.pin.data_sram_wen 0).0 clear) ∙ no_bit i q));
      outside = λ k q. refl;
      others = λ k q. refl;
    },
  )
]

-- One clock cycle of an enabled data channel at a lane of eight bytes that a memory holds, a port in
-- byte mode apart, comes back. It writes exactly the bytes whose bit of the strobe is set, with those
-- of the signal; all other bytes of the memory stay, and so do the other devices and the ports. Then
-- it delivers the whole lane as the memory has it now, wherever in the lane the address points. Of
-- the signals only that of the data read changes.
pub data_channel-IsMerge :
    (c : Slave (Xbar Mem)) (p : Port) (off : ℕ)
    → c.pin.data_sram_en ≢ 0
    → c.pin.data_sram_wdata < 2 ^ 64
    → load_addr c < 2 ^ 32
    → p.byte_mode ≡ false
    → IsLane (lane_base c) p off c.impl
    → (y : Xbar Mem) × (data_channel c
        ≡ ret tt (record c {
          impl = y;
          pin = record c.pin { data_sram_rdata = from_bytes (read_bytes (y.dev p.dev).cell off 8) };
        }))
      × IsMerge p off (test_bit c.pin.data_sram_wen) (to_bytes 8 c.pin.data_sram_wdata) c.impl y
data_channel-IsMerge c p off enabled wide small normal l =
    let (y, e, m) = stores-IsMerge c p off wide l in
    let after =
      subst (λ b. IsLane b p off y) (lane_base-eq c small)
        (merged-IsLane (lane_base c) p off _ _ c.impl y m l) in
    let on : (c.pin.data_sram_en == 0) ≡ false = ground arith in
    (
      y,
      opened c on
          ∙ >>=-ret write_channel (λ _. read_channel) c e
          ∙ read_channel-lane (set_impl y c) p off normal after,
      m,
    )
