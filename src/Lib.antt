-- ===== src/Lib.antt =====
-- The reference model of the difftest framework: a RISC-V machine that runs beside the processor
-- under test and that is compared with it instruction by instruction.
--
-- A core (difftest/src/rv_core.hpp) fetches, decodes and executes one instruction with each call of
-- `exec`. It keeps its privileged state in a rv_priv (difftest/src/rv_priv.hpp), which takes traps and
-- interrupts and makes the accesses to memory. These go through the TLB and the page table walk of a
-- rv_sv39 (difftest/src/rv_sv39.hpp), where translation is on, to the system bus
-- (difftest/src/rv_systembus.hpp). The bus finds the device of an address in a table of ranges; the
-- devices are memory (mmio_mem.hpp), the CLINT (rv_clint.hpp) and the PLIC (rv_plic.hpp), behind the
-- interface of difftest/src/mmio_dev.hpp.
--
-- The loops of difftest/src/sim_mycpu.cpp clock the processor under test, serve its memory port
-- (difftest/src/nscscc_sram.hpp) by a slave (nscscc_sram_slave.hpp) that is a crossbar to the devices
-- (nscscc_sram_xbar.hpp), and step the reference model whenever the design retires an instruction.
--
-- Files:
-- - Common: tests into Bool, words of a fixed width, bytes, bits, integers, and `Ran`, the calls
--   that come back with a new state, abort or end the process.
-- - Device, Device/Mem, Device/Clint, Device/Plic: the interface mmio_dev and its three classes.
--   The bus is generic in the type of its devices, by an instance of `MmioDev`.
-- - Device/Mem/Laws, Device/Mem/Warp, Device/Plic/Claim and Device/Plic/Complete are about them,
--   Device/Clint/Array, Device/Clint/Registers, Device/Clint/Programmed and Device/Clint/Timer
--   about the registers of the CLINT.
-- - Bus, Bus/Table, Bus/Amo: the class rv_systembus, its std::map as a list in the order of the
--   keys, and the switch of pa_amo_op. Bus/Order, Bus/Insert and Bus/AddDev are about the table,
--   Bus/Route about the search in it, Bus/Access, Bus/FlatRead and Bus/ReadBack about the bytes,
--   Bus/Reserve about LR and SC, Bus/Amo/Extremes about AMOMAX and AMOMIN.
-- - Sv39, Sv39/Fields, Sv39/Tlb: the class rv_sv39. Sv39/Maps is page tables in memory, Sv39/Walk
--   is about ptw, Sv39/Lookup, Sv39/Coherent, Sv39/Refill and Sv39/Translate about the TLB in front
--   of it, Sv39/Fence and Sv39/Flush about sfence_vma.
-- - Priv/Codes: the numbers of difftest/src/rv_common.hpp. Priv/Registers, Priv/CsrFile, Priv,
--   Priv/Memory: the class rv_priv, its registers and traps, the registers by number, the parts
--   that the accesses share, and the accesses. Priv/Invariant, Priv/Trap, Priv/Protect,
--   Priv/Operated, Priv/Untouched, Priv/Interrupts and Priv/CsrRoundTrip are about them.
-- - Core/Fields, Core/Decode, Core/Alu, Core/State, Core/Jump, Core/System, Core/Compressed, Core:
--   the class rv_core. Each case of the switch of exec is a function; `finish` is the label
--   exception. Core/Kept, Core/SystemKept, Core/CompressedKept, Core/Step, Core/Confined,
--   Core/Formats, Core/Expand, Core/ReadBack, Core/Alu/Laws and Core/Alu/Division are about them,
--   Core/History and Core/Unfetched about the histories that dump_pc_history prints. The compressed
--   instructions are behind `has_c_ext`, which is false as in the source.
-- - Sram, Sram/Slave, Sram/Xbar: the signals, the slave and the crossbar. Sram/Strobe is about the
--   ranges of a write strobe, Sram/Merge and Sram/Load about stores and loads, Sram/Unmapped about
--   accesses that no port takes, Sram/Running about what a clock cycle does to the global `running`
--   and to the process.
-- - Sim/Design, Sim/State, Sim/Tick, Sim/CommandLine, Sim: the design's interface, the variables of
--   the loops, a round of each loop and the loops, the options, and the three functions of
--   sim_mycpu.cpp. Sim/Setup and Sim/Loading are about the code before the loops, Sim/Kept and
--   Sim/Sound about what every round keeps, Sim/Stuck and Sim/Timeout about a design that retires
--   nothing, and Sim/Lockstep, Sim/Follow and Sim/Refine about the comparison.
-- - Examples: a machine with two instructions in memory, and the theorems at concrete inputs.
--
-- Methods keep their names and the order of their arguments; the object is the last argument, for
-- a device the first, and the state of the result. A failed assertion and undefined behaviour are
-- `abort` on a call, `fault` on a device; exit is `exits`. A word of w bits is a number whose
-- operations reduce modulo 2 ^ w. The template arguments (the number of TLB entries, of harts, of interrupt sources) are lengths of lists
-- in the state, so the definitions hold for any of them. The page table walk recurs on its level, from
-- 3 down, as the loop of ptw does. The loop of strb_to_range has eight rounds of fuel, one for each
-- byte. The loops of sim_mycpu.cpp have rounds of fuel, and their result tells whether they ended by
-- their test: the design decides how long they run.
--
-- The design under test, Verilog made into C++ by Verilator, is a parameter: a function on its public
-- members and a state of any type. So are sscanf and the contents of files. The global `running`, which
-- an assertion of the memory port clears, stands in the state of the slave; the assertions of the
-- reference model abort.
--
-- Not modelled: the assertions of the build flag MM_SANITIZER; set_cmp of the CLINT, which does not
-- compile when it is used; what the methods print and the waveform file; the handler of
-- SIGINT in sim_mycpu.cpp, which clears `running` at any moment; its trace file when it cannot be
-- opened; and that a write to a memory with set_diff_mem clears `running` where it differs, since
-- nothing calls set_diff_mem: the memory keeps the addresses.
-- Uninitialised memory, such as the contents of a new array, is an argument.
pub mod Common
pub mod Device
pub mod Bus
pub mod Sv39
pub mod Priv
pub mod Core
pub mod Sram
pub mod Sim
pub mod Examples
