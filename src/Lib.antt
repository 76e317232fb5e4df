-- ===== src/Lib.antt =====
-- perf-sim: a cycle-accurate simulator of a five-stage pipelined RV32I processor in C++.
--
-- The parts and the files that model them:
--   headers/types.h, the enumerations: Types.
--   headers/Instruction.h and src/Instruction.cpp, decoded instructions and their immediates:
--     Instruction, with Instruction/Encoding (the encodings of the instruction set, as a reference)
--     and Instruction/Immediates.
--   src/Executors.cpp, what an instruction computes: Executors, with Executors/Arithmetic,
--     Executors/Arithmetic/Shifts, Executors/Branches and Executors/Frame.
--   headers/Stage.h, the double-buffered pipeline registers: Stage, with Stage/Update.
--   src/Memory.cpp: Memory, with Memory/Bytes and Memory/Laws.
--   src/RegFile.cpp, registers and their locks: RegFile, with RegFile/Laws.
--   src/Pipeline.cpp, the store queue: Pipeline, with Pipeline/Queue.
--   src/HazardUnit.cpp, operand forwarding, stops and flushes: HazardUnit, with HazardUnit/Operands.
--   src/Decoder.cpp: Decoder and Decoder/Recognize, with Decoder/Table (the table of RV32I, as a
--     reference), Decoder/Fields, Decoder/Decoded, Decoder/Operands and
--     Decoder/Stores.
--   src/PerfSim.cpp, the clock, the loop and the constructor: PerfSim, with the stages in
--     PerfSim/Front, PerfSim/Execute, PerfSim/MemoryAccess and PerfSim/WriteBack over PerfSim/Stalls,
--     and the proofs in PerfSim/Loads, PerfSim/Accesses, PerfSim/Steady, PerfSim/Clock, PerfSim/Start,
--     PerfSim/Run, PerfSim/History, PerfSim/Ecall and PerfSim/Defects. Its tables of names:
--     PerfSim/Names. What it and the hazard unit print: PerfSim/Dump, with PerfSim/Dump/Columns and
--     PerfSim/Dump/Lines.
--   src/Log.cpp, the loggers: Log, with Log/Laws.
--   src/ElfManager.cpp, the program's file: ElfManager, with ElfManager/Laws.
--   headers/Config.h and the members of the classes above: Machine.
--   src/main.cpp, with the loggers that the configuration opens and the report at the end of a run:
--     Main, with Main/Report and Main/Run.
--   Base holds the words, integers, texts, tests and outcomes that all of them share, and Tests the
--     theorems at concrete inputs.
--
-- How they interact. `PerfSim::run` is a loop of cycles (`PerfSim.cycle`). A cycle calls writeBack,
-- memoryAccess, execute, decode and fetch, in this order, each of which reads the `load` half of one
-- stage cell and fills the `store` half of the next; then the cells are updated and the store queue
-- commits one store to memory. The decoder and the hazard unit hold references to the register file
-- and to the cells, so `Machine` is one record, which the methods take and return. Instruction
-- objects are shared by pointer between the decoder's cyclic arrays and the cells: they stand in a
-- store of their own, a pointer being an index (`Machine.instrs`, `array_base`), null `none`.
--
-- Values. A 32-bit word, signed or not, is its bit pattern below 2 ^ 32; sums and differences wrap
-- (`% 2 ^ 32`), and `signed32` is the number that an int32_t stands for. Signed overflow is taken to
-- wrap. Addresses are numbers modulo 2 ^ 64, into which an int32_t address is sign-extended.
-- `memcpy` from and to a 32-bit object is little endian and bounded by its four bytes.
--
-- Outcomes. A call returns `ok` or `err`: an exception of the code, or `undefined` where C++ leaves
-- the behaviour open (a null pointer used, an index out of range, a shift by 32 or more). Two reads
-- of values that C++ leaves open do not stop the program in practice and are parameters instead: the
-- id behind the end of an empty list (`end_id`) and the uninitialised `d_data` in `searchData`.
--
-- Loops. The run loop takes fuel; `none` says that it ran out while the machine was still going.
-- All the other loops go down a list.
--
-- Outside of the program. The answers of libelf and of the file system on the ELF file
-- (`ElfManager.ElfFile`), the paths that can be opened for writing, the measured time and the text of
-- a double (`Main.World`) are parameters. A stream is its open flag and what was written to the file;
-- the trace of a run is written at its end from the list of retired instructions (`Machine.trace`),
-- which PerfSim/History compares with what retires in the MW latch.
--
-- Not modelled: the release of handles and memory by the destructors, but for that of the logger, and
-- what a run that ends with an exception leaves in its files.
pub mod Base
pub mod Types
pub mod Instruction
pub mod Executors
pub mod Stage
pub mod Memory
pub mod RegFile
pub mod Pipeline
pub mod Log
pub mod ElfManager
pub mod Machine
pub mod HazardUnit
pub mod Decoder
pub mod PerfSim
pub mod Main
mod Tests
