-- ===== src/Examples/Stores.antt =====
-- Stores of the data channel to a crossbar with 16 bytes of memory.
use hdu_cpu_lab.Common.{ℕ, ◌<◌, ◌≡◌, true, false, none, [], ◌∷◌, arith, refl}
use hdu_cpu_lab.Common.Bytes.{to_bytes, from_bytes, read_bytes}
use hdu_cpu_lab.Common.Run.{ret}
use hdu_cpu_lab.Common.Words.{test_bit}
use hdu_cpu_lab.Device.Mem.{Mem}
use hdu_cpu_lab.Device.Mem.Laws.{mem_dev}
use hdu_cpu_lab.Sram.{nscscc_sram}
use hdu_cpu_lab.Sram.Slave.{Slave, strb_to_range, data_channel}
use hdu_cpu_lab.Sram.Xbar.{Port, Xbar, port_of, before_upper, xbar_slave}
use hdu_cpu_lab.Sram.Strobe.{Separated, in_ranges, strb_to_range-Separated}
use hdu_cpu_lab.Sram.Xbar
use hdu_cpu_lab.Sram.Load.{data_channel-IsMerge}
use hdu_cpu_lab.Sram.Merge.{IsLane, IsMerge, lane_base}

strb_to_range-Separated_example :
    Separated 0 (strb_to_range 0b10110)
    × ((i : ℕ) → i < 8 → in_ranges i (strb_to_range 0b10110) ≡ test_bit 0b10110 i)
strb_to_range-Separated_example = strb_to_range-Separated 0b10110

abbrev memory : Mem
memory = record {
  cell = λ k. 0;
  mem_size = 16;
  allow_warp = false;
  diff_mem = none;
  mismatches = [];
}

abbrev port : Port
port = record { base = 0x80000000; limit = 0x80000010; byte_mode = false; dev = 0 }

abbrev xbar : Xbar Mem
xbar = record { devices = port ∷ []; dev = λ _. memory }

-- A store of two bytes to the second lane.
abbrev slave : Slave (Xbar Mem)
slave = record {
  address_mask = 0xffffffff;
  impl = xbar;
  pin = record nscscc_sram {
    data_sram_en = 1;
    data_sram_wen = 0b00000110;
    data_sram_addr = 0x8000000a;
    data_sram_wdata = 0x1122334455667788;
  };
  running = true;
}

slave-IsLane : IsLane (lane_base slave) port 8 slave.impl
unfolding port_of before_upper
slave-IsLane = record {
  ported = λ addr len h w. ground arith;
  offset = λ addr h. ground arith;
  room = omega arith;
  small = omega arith;
}

data_channel-IsMerge_example :
    (y : Xbar Mem) × (data_channel slave
      ≡ ret tt (record slave {
        impl = y;
        pin = record slave.pin { data_sram_rdata = from_bytes (read_bytes (y.dev 0).cell 8 8) };
      }))
    × IsMerge port 8 (test_bit 0b00000110) (to_bytes 8 0x1122334455667788) xbar y
data_channel-IsMerge_example =
    data_channel-IsMerge slave port 8 (λ e. omega arith) (omega arith) (omega arith) refl
      slave-IsLane
