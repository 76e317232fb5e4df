-- ===== src/PerfSim/Execute.antt =====
-- `execute` of src/PerfSim.cpp.
use perf_sim.Base.{ℕ, Bool, not, ◌&&◌, ◌||◌, Result, ok, deref, ◌>>=◌, if◌then◌else◌}
use perf_sim.Types.{type_i, type_b, type_j, type_system, same_type}
use perf_sim.Instruction.{Instruction}
use perf_sim.Executors
use perf_sim.Stage.{Latch, is_stop}
use perf_sim.Machine.{Machine, set_instr}
use perf_sim.HazardUnit
use perf_sim.PerfSim.Stalls.{set_em_stall, unlock_if}

-- The test for a jump.
abbrev pub jumps : Instruction → Bool
jumps i =
    i.is_branch
    && (same_type type_j i.type
        || same_type type_i i.type
        || (same_type type_b i.type && i.br_is_taken))

-- The two effects of an executed instruction on the rest of the pipeline.
unfoldable pub jump_if : ℕ → Instruction → Machine → Result Machine
jump_if p i m = if jumps i then HazardUnit.branch m p else ok m

unfoldable pub exit_if : ℕ → Instruction → Machine → Machine
exit_if p i m = if same_type type_system i.type then HazardUnit.exit m p else m

unfoldable pub into_em : Latch → Machine → Machine
into_em de m = record m {
  em_st = record m.em_st {
    store = record m.em_st.store { pc = de.pc; instr = de.instr; is_stall = de.is_stall };
  };
}

unfoldable pub execute_object : Latch → Machine → ℕ → Result Machine
unfolding jump_if exit_if into_em
execute_object de m p = do
  i ← Executors.execute (m.instrs p)
  m₃ ← jump_if p i (set_instr m p i)
  ok (into_em de (exit_if p i m₃))

unfoldable pub execute : Machine → Result Machine
unfolding is_stop unlock_if execute_object
execute m =
    let de = m.de_st.load in
    let stall = de.is_stall || de.hazard_stall in
    let m₁ = set_em_stall m stall in
    if stall || is_stop m.em_st
    then unlock_if (not de.is_stall && de.hazard_stall) m₁ de.instr
    else deref de.instr >>= execute_object de m₁
