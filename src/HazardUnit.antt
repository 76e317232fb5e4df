-- ===== src/HazardUnit.antt =====
-- headers/HazardUnit.h and src/HazardUnit.cpp.
pub mod Operands
use perf_sim.Base.{
  ℕ, ◌+◌, Bool, true, not, ◌||◌, Result, ok, err, load_hazart, deref, ◌>>=◌, if◌then◌else◌, ◌==◌,
  u32,
}
use perf_sim.Types.{PipelineStage, stage_execute, stage_memory, access_read, same_access, InstrType}
use perf_sim.Instruction.{Register, empty_register, Instruction, get_rd, get_br_target_addr, has_rd}
use perf_sim.Stage.{Latch, extend}
use perf_sim.RegFile
use perf_sim.Machine.{Machine}

-- The test of the types R, I, U and J.
abbrev pub writes_rd : InstrType → Bool
writes_rd t = has_rd t

abbrev pub is_load : Instruction → Bool
is_load i = same_access i.mem_acc_type access_read

abbrev pub is_live : Latch → Bool
is_live l = not (l.is_stall || l.hazard_stall)

-- The stop for a load whose value comes too late.
unfoldable pub stop_for_load : Machine → Machine
unfolding extend
stop_for_load m = record m {
  hu = record m.hu { stops = u32 (m.hu.stops + 1); bypasses_wb_ex = u32 (m.hu.bypasses_wb_ex + 1) };
  fd_st = extend m.fd_st 1;
  fetch_st = extend m.fetch_st 1;
  em_st = record m.em_st { store = record m.em_st.store { hazard_stall = true } };
}

abbrev pub count_mem_ex : Machine → Machine
count_mem_ex m = record m { hu = record m.hu { bypasses_mem_ex = u32 (m.hu.bypasses_mem_ex + 1) } }

abbrev pub count_wb_ex : Machine → Machine
count_wb_ex m = record m { hu = record m.hu { bypasses_wb_ex = u32 (m.hu.bypasses_wb_ex + 1) } }

-- The second half of `decode`: the instruction in the EM register.
unfoldable pub decode_em : Machine → Register → Result (Register × Machine)
unfolding get_rd
decode_em m rs =
    let em = m.em_st.load in
    let search = do
      p ← deref em.instr
      let instr = m.instrs p
      if writes_rd instr.type
          then (do
            rd ← get_rd instr
            if rd.name == rs.name then ok (rd, count_wb_ex m) else ok (empty_register, m))
          else ok (empty_register, m)
    in if is_live em then search else ok (empty_register, m)

-- What `decode` does once the instruction in the DE register is found to write `rs`.
unfoldable pub bypass_de :
    PipelineStage → Machine → Register → Register → Instruction → Result (Register × Machine)
unfolding stop_for_load
bypass_de stage_execute m rs rd instr =
    if is_load instr then ok (rs, stop_for_load m) else ok (rd, count_mem_ex m)
bypass_de stage_memory m rs rd instr =
    if is_load instr then err load_hazart else ok (rd, count_mem_ex m)

unfoldable pub decode : Machine → Register → PipelineStage → Result (Register × Machine)
unfolding decode_em bypass_de get_rd
decode m rs need_value_on =
    let de = m.de_st.load in
    let search = do
      p ← deref de.instr
      let instr = m.instrs p
      if writes_rd instr.type
          then (do
            rd ← get_rd instr
            if rd.name == rs.name then bypass_de need_value_on m rs rd instr else decode_em m rs)
          else decode_em m rs
    in if is_live de then search else decode_em m rs

unfoldable pub branch : Machine → ℕ → Result Machine
unfolding get_br_target_addr
branch m p = do
  target ← get_br_target_addr (m.instrs p)
  ok (record m {
    fetch_st = record m.fetch_st {
      store = record m.fetch_st.store { is_jump = true; pc_jump = target };
    };
    fd_st = record m.fd_st { store = record m.fd_st.store { hazard_stall = true } };
    de_st = record m.de_st { store = record m.de_st.store { hazard_stall = true } };
    hu = record m.hu { branches = u32 (m.hu.branches + 1) };
  })

unfoldable pub write : Machine → ℕ → Result Machine
unfolding get_rd
write m p =
    let instr = m.instrs p in
    if writes_rd instr.type
    then (do rd ← get_rd instr; rf ← RegFile.write m.rf rd; ok (record m { rf = rf }))
    else ok m

unfoldable pub exit : Machine → ℕ → Machine
unfolding extend
exit m ecall = record m {
  fetch_st = extend m.fetch_st 5;
  fd_st = extend m.fd_st 5;
  de_st = record (extend m.de_st 5) { load = record m.de_st.load { hazard_stall = true } };
}
