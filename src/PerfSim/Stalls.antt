-- ===== src/PerfSim/Stalls.antt =====
-- The stall flags of the cells, and the release of a cancelled instruction: src/PerfSim.cpp.
use perf_sim.Base.{ℕ, Bool, Option, Result, ok, deref, ◌>>=◌, if◌then◌else◌}
use perf_sim.Machine.{Machine}
use perf_sim.HazardUnit

-- `fd->is_stall = …`, and the same for the other latches.
abbrev pub set_fd_stall : Machine → Bool → Machine
set_fd_stall m b = record m {
  fd_st = record m.fd_st { store = record m.fd_st.store { is_stall = b } };
}

abbrev pub set_de_stall : Machine → Bool → Machine
set_de_stall m b = record m {
  de_st = record m.de_st { store = record m.de_st.store { is_stall = b } };
}

abbrev pub set_em_stall : Machine → Bool → Machine
set_em_stall m b = record m {
  em_st = record m.em_st { store = record m.em_st.store { is_stall = b } };
}

abbrev pub set_mw_stall : Machine → Bool → Machine
set_mw_stall m b = record m {
  mw_st = record m.mw_st { store = record m.mw_st.store { is_stall = b } };
}

-- `if (stop) hu.write(instr);`
unfoldable pub unlock_if : Bool → Machine → Option ℕ → Result Machine
unlock_if b m instr = if b then (deref instr >>= HazardUnit.write m) else ok m
