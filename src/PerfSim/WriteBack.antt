-- ===== src/PerfSim/WriteBack.antt =====
-- `writeBack` of src/PerfSim.cpp. `trace` holds what `dumpInstruction` is called with.
use perf_sim.Base.{
  ℕ, ◌+◌, Bool, true, false, not, ◌&&◌, ◌||◌, ◌∷◌, Result, ok, deref, ◌>>=◌, if◌then◌else◌, u64,
}
use perf_sim.Types.{InstrName}
use perf_sim.Instruction.{Instruction, get_rd}
use perf_sim.RegFile.{RegFile}
use perf_sim.RegFile
use perf_sim.Machine.{Machine}
use perf_sim.HazardUnit.{writes_rd}
use perf_sim.PerfSim.Stalls.{unlock_if}

abbrev pub is_ecall : InstrName → Bool
is_ecall InstrName.ecall = true
is_ecall _ = false

-- The end of `writeBack`, for an instruction that retires.
unfoldable pub retire : Machine → Instruction → Machine
retire m i = record m {
  ic = u64 (m.ic + 1);
  trace = if m.config.dump_trace then i ∷ m.trace else m.trace;
  is_stop = if is_ecall i.name then true else m.is_stop;
}

unfoldable pub write_rd : Machine → Instruction → Result RegFile
unfolding get_rd
write_rd m i = if writes_rd i.type then (get_rd i >>= RegFile.write m.rf) else ok m.rf

unfoldable pub write_object : Machine → ℕ → Result Machine
unfolding write_rd retire
write_object m p = do rf ← write_rd m (m.instrs p); ok (retire (record m { rf = rf }) (m.instrs p))

unfoldable pub write_back : Machine → Result Machine
unfolding unlock_if write_object
write_back m =
    let mw = m.mw_st.load in
    if mw.is_stall || mw.hazard_stall
    then unlock_if (not mw.is_stall && mw.hazard_stall) m mw.instr
    else deref mw.instr >>= write_object m
