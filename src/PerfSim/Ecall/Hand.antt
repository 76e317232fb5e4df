-- ===== src/PerfSim/Ecall/Hand.antt =====
-- The ECALL in `memoryAccess`, with the stages before it stopped.
use perf_sim.Base.{
  ℕ, ◌≡◌, refl, sym, ap, ◌∙◌, Bool, true, false, not, ◌&&◌, ◌||◌, ok, Post, Post-mono, subst,
}
use perf_sim.Types.{InstrName}
use perf_sim.Instruction.{Instruction}
use perf_sim.Stage.{Latch, is_stop}
use perf_sim.Stage
use perf_sim.Pipeline
use perf_sim.Memory.{Memory}
use perf_sim.Machine.{Machine}
use perf_sim.PerfSim.{
  is_load_access, is_store_access, access_object, memory_access, store_if, load_if, into_mw,
  execute, update_stages, committed, set_em_stall, set_mw_stall,
}
use perf_sim.PerfSim.Ecall.Latches.{Back, InEm, InMw, IsEcall, Runs, SameBack, unlock_if-SameBack}
use perf_sim.PerfSim.Ecall.Stages.{entered, running, skipped}

-- `memoryAccess` has passed the ECALL on.
pub record Handed (p : ℕ) (m : Machine) : Type 0 where
  pub runs : Runs m.mw_st.store p
  pub name : (m.instrs p).name ≡ InstrName.ecall
  pub de_stopped : m.de_st.stop_count ≡ 4
  pub de_hazard : m.de_st.load.hazard_stall ≡ true
  pub mw_running : m.mw_st.stop_count ≡ 0

no_load : (i : Instruction) → IsEcall i → is_load_access i ≡ false
no_load i e = rw e.access refl

no_store : (i : Instruction) → IsEcall i → is_store_access i ≡ false
no_store i e = rw e.access refl

access_object-none :
    (end_id d_data : ℕ) (em : Latch) (m : Machine) (p : ℕ)
    → IsEcall (m.instrs p)
    → access_object end_id d_data em m p ≡ ok (into_mw em m)
unfolding access_object store_if load_if
access_object-none end_id d_data em m p e =
    rw (no_store (m.instrs p) e, no_load (m.instrs p) e) refl

neither : (a b : Bool) → a ≡ false → b ≡ false → (a || b) ≡ false
neither a b x y = rw (x, y) refl

pub memory_access-Handed :
    (end_id d_data : ℕ) (m : Machine) (p : ℕ)
    → InEm p m
    → Post (Handed p) (memory_access end_id d_data m)
unfolding memory_access into_mw
memory_access-Handed end_id d_data m p d =
    let em = m.em_st.load in
    let m₁ = set_mw_stall m (em.is_stall || em.hazard_stall) in
    entered (Handed p) em.is_stall em.hazard_stall (is_stop m.mw_st) em.instr p _
      (access_object end_id d_data em m₁) d.runs.is_stall d.runs.hazard_stall
      (running m.mw_st d.mw_running) d.runs.instr
      (rw (access_object-none end_id d_data em m₁ p d.object) (record {
        runs = record {
          is_stall = neither em.is_stall em.hazard_stall d.runs.is_stall d.runs.hazard_stall;
          hazard_stall = d.mw_hazard;
          instr = d.runs.instr;
        };
        name = d.object.name;
        de_stopped = d.de_stopped;
        de_hazard = d.de_hazard;
        mw_running = d.mw_running;
      }))

pub Handed-back : (p : ℕ) (a b : Machine) → SameBack a b → Handed p a → Handed p b
Handed-back p a b s h = record {
  runs = subst (λ (x : Back). Runs x.1.0.store p) (sym s) h.runs;
  name = ap (λ (x : Back). (x.1.1 p).name) s ∙ h.name;
  de_stopped = ap (λ (x : Back). x.0.0.stop_count) s ∙ h.de_stopped;
  de_hazard = ap (λ (x : Back). x.0.0.load.hazard_stall) s ∙ h.de_hazard;
  mw_running = ap (λ (x : Back). x.1.0.stop_count) s ∙ h.mw_running;
}

hazard : (a b d : Bool) → b ≡ true → ((a || b) || d) ≡ true
hazard true b d e = refl
hazard false b d e = rw e refl

pub execute-Handed : (m : Machine) (p : ℕ) → Handed p m → Post (Handed p) (execute m)
unfolding execute
execute-Handed m p h =
    let de = m.de_st.load in
    let stall = de.is_stall || de.hazard_stall in
    let m₁ = set_em_stall m stall in
    skipped (Handed p) stall (is_stop m.em_st) _ _
      (hazard de.is_stall de.hazard_stall (is_stop m.em_st) h.de_hazard)
      (Post-mono (SameBack m₁) (Handed p) _
        (unlock_if-SameBack (not de.is_stall && de.hazard_stall) m₁ de.instr)
        (λ a s. Handed-back p m₁ a s (record {
          runs = h.runs;
          name = h.name;
          de_stopped = h.de_stopped;
          de_hazard = h.de_hazard;
          mw_running = h.mw_running;
        })))

pub Handed-InMw :
    (p : ℕ) (m : Machine) (r : Pipeline.Pipeline × Memory)
    → Handed p m
    → InMw p (committed (update_stages m) r)
unfolding committed update_stages Stage.update
Handed-InMw p m r l = rw l.mw_running (record { runs = l.runs; name = l.name })
