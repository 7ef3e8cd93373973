-- ===== src/Sram.antt =====
-- difftest/src/nscscc_sram.hpp: the signals of the SRAM port of the processor under test, its
-- instruction channel and its data channel.
pub mod Slave
pub mod Xbar
pub mod Strobe
pub mod Running
pub mod Merge
pub mod Load
pub mod Unmapped
use hdu_cpu_lab.Common.{
  ℕ, Bool, true, false, not, ◌&&◌, ◌||◌, List, [], ◌∷◌, length, ◌==◌, if◌then◌else◌,
}

-- struct nscscc_sram. A nscscc_sram_ref refers to the signals of one such struct, or to those of the
-- design, which are the same: a method that takes one takes and returns the signals referred to.
pub record Sram : Type 0 where
  pub inst_sram_en : ℕ
  pub inst_sram_wen : ℕ
  pub inst_sram_addr : ℕ
  pub inst_sram_wdata : ℕ
  pub inst_sram_rdata : ℕ
  pub data_sram_en : ℕ
  pub data_sram_wen : ℕ
  pub data_sram_addr : ℕ
  pub data_sram_wdata : ℕ
  pub data_sram_rdata : ℕ

-- The constructor.
unfoldable pub nscscc_sram : Sram
nscscc_sram = record {
  inst_sram_en = 0;
  inst_sram_wen = 0;
  inst_sram_addr = 0;
  inst_sram_wdata = 0;
  inst_sram_rdata = 0;
  data_sram_en = 0;
  data_sram_wen = 0;
  data_sram_addr = 0;
  data_sram_wdata = 0;
  data_sram_rdata = 0;
}

unfoldable pub update_input : Sram → Sram → Sram
update_input ref sram = record sram {
  inst_sram_en = ref.inst_sram_en;
  inst_sram_wen = ref.inst_sram_wen;
  inst_sram_addr = ref.inst_sram_addr;
  inst_sram_wdata = ref.inst_sram_wdata;
  data_sram_en = ref.data_sram_en;
  data_sram_wen = ref.data_sram_wen;
  data_sram_addr = ref.data_sram_addr;
  data_sram_wdata = ref.data_sram_wdata;
}

-- The signals that `ref` refers to afterwards.
unfoldable pub update_output : Sram → Sram → Sram
update_output sram ref = record ref {
  inst_sram_rdata = sram.inst_sram_rdata;
  data_sram_rdata = sram.data_sram_rdata;
}

-- struct nscscc_sram_ptr: the ten pointers in the order of its members, as addresses, NULL as 0.
pub record SramPtr : Type 0 where
  pub pointers : List ℕ

-- `s.count(x)` and `s.insert(x)` of the std::set, whose order is not looked at.
unfoldable pub count : ℕ → List ℕ → ℕ
count x [] = 0
count x (y ∷ ys) = let rest = count x ys in if x == y then 1 else rest

abbrev pub insert_pointer : ℕ → List ℕ → List ℕ
insert_pointer x s = if count x s == 0 then x ∷ s else s

unfoldable pub set_of : List ℕ → List ℕ → List ℕ
set_of [] s = s
set_of (x ∷ xs) s = set_of xs (insert_pointer x s)

unfoldable pub check : SramPtr → Bool
unfolding set_of count
check ptr = let s = set_of ptr.pointers [] in length s == 10 && count 0 s == 0
