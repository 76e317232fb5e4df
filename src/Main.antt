-- ===== src/Main.antt =====
-- src/main.cpp, and what frames a run: the loggers that headers/Config.h opens, the constructor of
-- src/PerfSim.cpp on an ELF file, and the report at the end of `run`.
pub mod Report
pub mod Run
use perf_sim.Base.{ℕ, Bool, Option, none, some, Result, ok, err, ◌>>=◌, if◌then◌else◌}
use perf_sim.Base.Text.{Text, codes}
use perf_sim.Log.{Logger, new_logger, open_file}
use perf_sim.ElfManager.{ElfFile, open_elf, load}
use perf_sim.Machine.{Config, default_config, Machine}
use perf_sim.PerfSim.{start, run}
use perf_sim.PerfSim.Dump.{dump, dump_trace}

-- The simulator with its two loggers.
pub record Simulation : Type 0 where
  pub machine : Machine
  pub log : Logger
  pub trace : Logger

-- What the program meets outside of itself: the files that can be written, the ELF file at a path,
-- the measured time, and the text of a quotient of doubles.
pub record World : Type 0 where
  pub opens : Text → Bool
  pub elf : Text → ElfFile
  pub execution_time : ℕ
  pub kips : ℕ → ℕ → Text

unfoldable pub open_if : (Text → Bool) → Bool → Text → Result Logger
open_if opens b path = if b then open_file opens new_logger path else ok new_logger

unfoldable pub construct : World → Config → Text → Result Simulation
unfolding open_if
construct w config path = do
  trace ← open_if w.opens config.dump_trace (codes "trace.txt")
  log ← open_if w.opens config.is_log (codes "Log.txt")
  entry ← open_elf (w.elf path)
  machine ← start config (load (w.elf path)) entry
  ok (record { machine = machine; log = log; trace = trace })

-- The end of `run`, after the loop; the trace has been written during the loop.
unfoldable pub report : World → Logger → Logger → Machine → Result Simulation
report w log trace m = do
  trace' ← dump_trace trace m.trace
  log' ← if m.config.is_log then dump w.kips w.execution_time log m else ok log
  ok (record { machine = m; log = log'; trace = trace' })

unfoldable pub finish : World → Simulation → Option (Result Machine) → Option (Result Simulation)
finish w s none = none
finish w s (some (ok m)) = some (report w s.log s.trace m)
finish w s (some (err e)) = some (err e)

-- `run`; `none` where the fuel of the loop runs out.
unfoldable pub run_simulation : World → ℕ → ℕ → ℕ → Simulation → Option (Result Simulation)
unfolding finish
run_simulation w end_id d_data fuel s = finish w s (run end_id d_data fuel s.machine)

unfoldable pub run_all : World → ℕ → ℕ → ℕ → Result Simulation → Option (Result Simulation)
run_all w end_id d_data fuel (ok s) = run_simulation w end_id d_data fuel s
run_all w end_id d_data fuel (err e) = some (err e)

unfoldable pub main : World → ℕ → ℕ → ℕ → Option (Result Simulation)
unfolding run_all
main w end_id d_data fuel = run_all w end_id d_data fuel (construct w default_config (codes "loop"))
