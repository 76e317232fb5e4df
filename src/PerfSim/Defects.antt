-- ===== src/PerfSim/Defects.antt =====
-- What becomes of an instruction that the hazard unit cancels: src/HazardUnit.cpp and the stalled
-- paths of src/PerfSim.cpp.
use perf_sim.Stage
use perf_sim.Base.{u32, ◌+◌, ℕ, ◌<◌, ◌≡◌, refl, ap, ◌∙◌, true, false, some, ok, ==_self, ◌≢◌}
use perf_sim.Types.{stage_execute}
use perf_sim.Instruction.{Instruction, Register, get_br_target_addr}
use perf_sim.Stage.{Latch}
use perf_sim.Machine.{Machine}
use perf_sim.Stage.{is_stop}
use perf_sim.HazardUnit.{stop_for_load, writes_rd, is_load}
use perf_sim.HazardUnit
use perf_sim.HazardUnit.Operands.{Writes, decode-load}
use perf_sim.RegFile.Laws.{write_lem, put}
use perf_sim.PerfSim.{
  memory_access, update_stages, unlock_if, set_mw_stall, set_de_stall, set_em_stall, latch_decoded,
  with_pc, into_de, execute,
}

cancelled :
    (end_id d_data p : ℕ) (m : Machine)
    → m.em_st.load.is_stall ≡ false
    → m.em_st.load.hazard_stall ≡ true
    → m.em_st.load.instr ≡ some p
    → memory_access end_id d_data m ≡ HazardUnit.write (set_mw_stall m true) p
unfolding memory_access unlock_if
cancelled end_id d_data p m s h e = rw (s, h, e)

hu_write-put :
    (m : Machine) (p : ℕ)
    → writes_rd (m.instrs p).type ≡ true
    → (m.instrs p).rd.name < m.rf.num_regs
    → (m.instrs p).rd.name ≢ 0
    → HazardUnit.write m p ≡ ok (record m { rf = put m.rf (m.instrs p).rd })
unfolding HazardUnit.write
hu_write-put m p w small nonzero = rw (w, write_lem m.rf (m.instrs p).rd small nonzero)

-- `stop_for_load` marks the instruction that has just been executed, which at the next clock stands in
-- the EM latch.
stop-update :
    (m : Machine)
    → m.em_st.stop_count ≡ 0
    → (update_stages (stop_for_load m)).em_st.load ≡ record m.em_st.store { hazard_stall = true }
unfolding stop_for_load update_stages
stop-update m e = rw e

-- Where a live load in the DE latch writes, within the register file, the register other than
-- zero that the next instruction reads in its execute stage, the hazard unit gives the old
-- register back, and its stop cancels the load: with the EM cell not stopped and the load in its
-- store half, the memory access after the update of the cells succeeds, changes neither the
-- memory nor the object of the load, and writes the copy of the register that the load was
-- decoded with.
pub load_use_cancelled :
    (end_id d_data p : ℕ) (m : Machine) (rs : Register) (i : Instruction)
    → Writes m m.de_st.load rs.name i
    → is_load i ≡ true
    → m.em_st.store.instr ≡ some p
    → m.em_st.store.is_stall ≡ false
    → m.instrs p ≡ i
    → m.em_st.stop_count ≡ 0
    → rs.name < m.rf.num_regs
    → rs.name ≢ 0
    → (m₁ m₂ : Machine) × (HazardUnit.decode m rs stage_execute ≡ ok (rs, m₁))
      × (memory_access end_id d_data (update_stages m₁) ≡ ok m₂)
      × (m₂.memory ≡ m.memory)
      × (m₂.instrs p ≡ i)
      × (m₂.rf.regs rs.name ≡ i.rd)
unfolding update_stages stop_for_load
load_use_cancelled end_id d_data p m rs i w l e s x c small nonzero =
    let m₁ = stop_for_load m in
    let m' = update_stages m₁ in
    let u = stop-update m c in
    let n = w.3 in
    let t : writes_rd (m.instrs p).type ≡ true = rw x w.2 in
    let a : (m.instrs p).rd.name < m.rf.num_regs = rw (x, n) small in
    let b : (m.instrs p).rd.name ≢ 0 = rw (x, n) nonzero in
    (
      m₁,
      _,
      (decode-load m rs i w l).0,
      cancelled end_id d_data p m' (ap (λ (k : Latch). k.is_stall) u ∙ s)
            (ap (λ (k : Latch). k.hazard_stall) u) (ap (λ (k : Latch). k.instr) u ∙ e)
          ∙ hu_write-put (set_mw_stall m' true) p t a b,
      refl,
      x,
      rw (x, n, ==_self rs.name) refl,
    )

-- The jump marks the stages behind it.
flush : Machine → ℕ → Machine
flush m target = record m {
  fetch_st = record m.fetch_st {
    store = record m.fetch_st.store { is_jump = true; pc_jump = target };
  };
  fd_st = record m.fd_st { store = record m.fd_st.store { hazard_stall = true } };
  de_st = record m.de_st { store = record m.de_st.store { hazard_stall = true } };
  hu = record m.hu { branches = u32 (m.hu.branches + 1) };
}

branch-flush :
    (m : Machine) (b : ℕ)
    → (m.instrs b).is_branch ≡ true
    → HazardUnit.branch m b ≡ ok (flush m (m.instrs b).branch_addr)
unfolding HazardUnit.branch get_br_target_addr flush
branch-flush m b e = rw e refl

-- A machine whose decoder has put the object `p` into the DE cell.
decoded : ℕ → ℕ → Machine → Machine
decoded pc p m = into_de pc p (with_pc pc (p, set_de_stall m false))

latch_decoded-decoded :
    (pc p : ℕ) (m : Machine)
    → m.de_st.stop_count ≡ 0
    → latch_decoded pc (p, set_de_stall m false) ≡ ok (decoded pc p m)
unfolding latch_decoded unlock_if is_stop decoded
latch_decoded-decoded pc p m e = rw e refl

execute-flushed :
    (m : Machine) (p : ℕ)
    → m.de_st.load.is_stall ≡ false
    → m.de_st.load.hazard_stall ≡ true
    → m.de_st.load.instr ≡ some p
    → execute m ≡ HazardUnit.write (set_em_stall m true) p
unfolding execute unlock_if
execute-flushed m p s h e = rw (s, h, e) refl

moved : (m : Machine) → m.de_st.stop_count ≡ 0 → (update_stages m).de_st.load ≡ m.de_st.store
unfolding update_stages Stage.update
moved m e = rw e refl

-- The object that the decoder gives, with its address.
with_pc_self :
    (pc p : ℕ) (m : Machine) → (with_pc pc (p, m)).instrs p ≡ record (m.instrs p) { pc = pc }
unfolding with_pc
with_pc_self pc p m = rw (==_self p) refl

-- Where a branch object is followed by an object that writes a register of the file other than
-- zero, and the DE cell is not stopped, the branch, the decoding of the second object into the DE
-- cell, the update of the cells and the next execute stage, one after the other, all succeed, the
-- second object is cancelled, and yet its register gets the copy that the object was decoded
-- with, whatever it held.
pub flush-put :
    (m : Machine) (b p pc : ℕ)
    → (m.instrs b).is_branch ≡ true
    → m.de_st.stop_count ≡ 0
    → writes_rd (m.instrs p).type ≡ true
    → (m.instrs p).rd.name < m.rf.num_regs
    → (m.instrs p).rd.name ≢ 0
    → (m₁ m₂ m₃ : Machine) × (HazardUnit.branch m b ≡ ok m₁)
      × (latch_decoded pc (p, set_de_stall m₁ false) ≡ ok m₂)
      × (execute (update_stages m₂) ≡ ok m₃)
      × (m₃.em_st.store.is_stall ≡ true)
      × (m₃.rf.regs (m.instrs p).rd.name ≡ (m.instrs p).rd)
unfolding flush decoded with_pc into_de update_stages Stage.update
flush-put m b p pc branch running w small nonzero =
    let m₁ = flush m (m.instrs b).branch_addr in
    let m₂ = decoded pc p m₁ in
    let m' = set_em_stall (update_stages m₂) true in
    let u = moved m₂ running in
    let i = with_pc_self pc p (set_de_stall m₁ false) in
    (
      m₁,
      m₂,
      _,
      branch-flush m b branch,
      latch_decoded-decoded pc p m₁ running,
      execute-flushed (update_stages m₂) p (ap (λ (k : Latch). k.is_stall) u)
            (ap (λ (k : Latch). k.hazard_stall) u) (ap (λ (k : Latch). k.instr) u)
          ∙ hu_write-put m' p (rw i w) (rw i small) (rw i nonzero),
      refl,
      rw (i, ==_self (m.instrs p).rd.name) refl,
    )
