-- ===== src/PerfSim.antt =====
-- headers/PerfSim.h and src/PerfSim.cpp: the clock, the run loop and the constructor, with the stages of
-- the pipeline in the modules below. `end_id` and `d_data` are the values of the two reads that C++
-- leaves open; see Pipeline.antt. The loop takes fuel: `none` means that it ran out with the machine
-- still going.
pub mod Loads
pub mod Names
pub mod Accesses
pub mod Ecall
pub mod Dump
pub mod Steady
pub mod Clock
pub mod Run
pub mod Start
pub mod History
pub mod Defects
pub mod Stalls
pub mod Front
pub mod Execute
pub mod MemoryAccess
pub mod WriteBack
unfoldable pub use Stalls.*
unfoldable pub use Front.*
unfoldable pub use Execute.*
unfoldable pub use MemoryAccess.*
unfoldable pub use WriteBack.*
use perf_sim.Base.{
  ℕ, zero, suc, ◌+◌, ◌-◌, true, false, Option, none, some, Result, ok, err, ◌>>=◌, ◌>>◌,
  if◌then◌else◌, u32, u64, w64, sext64,
}
use perf_sim.Types.{access_write, register_name_sp}
use perf_sim.Stage.{Stage, cleared_wf, cleared_fd, cleared_latch, is_stop}
use perf_sim.Stage
use perf_sim.Memory.{Memory, write_word}
use perf_sim.RegFile.{get_reg, RegFile}
use perf_sim.RegFile
use perf_sim.Pipeline.{Pipeline}
use perf_sim.Pipeline
use perf_sim.Machine.{Machine, Config, new_machine}

-- The updates at the end of a cycle.
unfoldable pub update_stages : Machine → Machine
unfolding Stage.update
update_stages m = record m {
  fetch_st = Stage.update cleared_wf m.fetch_st;
  fd_st = Stage.update cleared_fd m.fd_st;
  de_st = Stage.update cleared_latch m.de_st;
  em_st = Stage.update cleared_latch m.em_st;
  mw_st = Stage.update cleared_latch m.mw_st;
}

unfoldable pub committed : Machine → Pipeline × Memory → Machine
committed m r = record m { pipeline = r.0; memory = r.1; clocks = u64 (m.clocks + 1) }

unfoldable pub tick : Machine → Result Machine
unfolding update_stages committed
tick m =
    let m₁ = update_stages m in Pipeline.update m₁.pipeline m₁.memory >>= λ r. ok (committed m₁ r)

-- One round of the loop of `run`.
unfoldable pub cycle : ℕ → ℕ → Machine → Result Machine
cycle end_id d_data m = do
  m₁ ← write_back m
  m₂ ← memory_access end_id d_data m₁
  m₃ ← execute m₂
  m₄ ← decode m₃
  m₅ ← fetch m₄
  tick m₅

unfoldable pub run : ℕ → ℕ → ℕ → Machine → Option (Result Machine)
run end_id d_data zero m = if m.is_stop then some (ok m) else none
run end_id d_data (suc fuel) m = elim m.is_stop [
  | true ↦ some (ok m)
  | false ↦ elim (cycle end_id d_data m) [
    | ok m' ↦ run end_id d_data fuel m'
    | err e ↦ some (err e)
  ]
]

-- The constructor; `load` is that of the ELF file, and `entry` its entry point.
unfoldable pub start : Config → (Memory → Result Memory) → ℕ → Result Machine
start config load entry =
    let m = new_machine config in
    do
      memory ← load m.memory
      (sp, rf) ← get_reg m.rf register_name_sp access_write
      let sp' = record sp { value = u32 (config.memory_size + w64 - 5) }
      memory' ← write_word memory 0 (sext64 sp'.value) 4
      rf' ← RegFile.write rf sp'
      ok (record m {
        memory = memory';
        rf = rf';
        fetch_st = Stage.update cleared_wf (record m.fetch_st {
          store = record m.fetch_st.store { pc = u32 entry; is_stall = false };
        });
      })
