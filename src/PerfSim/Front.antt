-- ===== src/PerfSim/Front.antt =====
-- `fetch` and `decode` of src/PerfSim.cpp.
use perf_sim.Base.{ℕ, false, ◌||◌, some, Result, ok, ◌>>=◌, if◌then◌else◌, add32}
use perf_sim.Stage.{is_stop}
use perf_sim.Memory.{read_word}
use perf_sim.Machine.{Machine, set_instr}
use perf_sim.Decoder
use perf_sim.PerfSim.Stalls.{set_fd_stall, set_de_stall, unlock_if}

-- The rest of `fetch`: the word at `pc` goes to the FD register.
unfoldable pub fetched : ℕ → Machine → ℕ → Machine
fetched pc m instr = record m {
  fd_st = record m.fd_st {
    store = record m.fd_st.store { pc = pc; instr = instr; is_stall = false };
  };
  fetch_st = record m.fetch_st { store = record m.fetch_st.store { pc = add32 pc 4 } };
}

unfoldable pub fetch : Machine → Result Machine
unfolding is_stop fetched
fetch m =
    let wf = m.fetch_st.load in
    let stall = wf.is_stall || wf.hazard_stall in
    let pc = if wf.is_jump then wf.pc_jump else wf.pc in
    if stall || is_stop m.fd_st
    then ok (set_fd_stall m stall)
    else (do instr ← read_word m.memory 0 pc 4; ok (fetched pc (set_fd_stall m stall) instr))

-- The rest of `decode`, after the decoder has given the object `p`.
unfoldable pub with_pc : ℕ → ℕ × Machine → Machine
with_pc pc (p, m) = set_instr m p (record (m.instrs p) { pc = pc })

unfoldable pub into_de : ℕ → ℕ → Machine → Machine
into_de pc p m = record m {
  de_st = record m.de_st { store = record m.de_st.store { instr = some p; pc = pc } };
}

unfoldable pub latch_decoded : ℕ → ℕ × Machine → Result Machine
unfolding is_stop with_pc into_de unlock_if
latch_decoded pc r = do
  m ← unlock_if (is_stop r.1.de_st) (with_pc pc r) (some r.0)
  ok (into_de pc r.0 m)

unfoldable pub decode : Machine → Result Machine
unfolding is_stop latch_decoded
decode m =
    let fd = m.fd_st.load in
    let stall = fd.is_stall || fd.hazard_stall in
    if stall || is_stop m.de_st
    then ok (set_de_stall m stall)
    else Decoder.decode (set_de_stall m stall) fd.instr >>= latch_decoded fd.pc
