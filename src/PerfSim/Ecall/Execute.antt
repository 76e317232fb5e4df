-- ===== src/PerfSim/Ecall/Execute.antt =====
-- The ECALL in `execute`, and `HazardUnit::exit`.
use perf_sim.Base.{
  ℕ, ◌+◌, ◌≡◌, refl, sym, ap, ◌∙◌, true, false, ◌||◌, Post, Post-bind, subst, u32, ==_self,
}
use perf_sim.Types.{type_system, same_type}
use perf_sim.Instruction.{Instruction}
use perf_sim.Executors
use perf_sim.Stage.{is_stop}
use perf_sim.Stage
use perf_sim.Pipeline
use perf_sim.Memory.{Memory}
use perf_sim.Machine.{Machine, set_instr}
use perf_sim.HazardUnit
use perf_sim.PerfSim.{
  execute, execute_object, jump_if, exit_if, into_em, update_stages, committed, set_em_stall,
}
use perf_sim.PerfSim.Ecall.Latches.{Back, InDe, InEm, IsEcall, Runs, SameBack}
use perf_sim.PerfSim.Ecall.Stages.{entered, running}

-- `execute` has passed the ECALL on.
pub record Left (p : ℕ) (m : Machine) : Type 0 where
  pub runs : Runs m.em_st.store p
  pub object : IsEcall (m.instrs p)
  pub de_stopped : m.de_st.stop_count ≡ 5
  pub de_hazard : m.de_st.load.hazard_stall ≡ true
  pub em_running : m.em_st.stop_count ≡ 0
  pub mw_running : m.mw_st.stop_count ≡ 0

ecall_stays : (i : Instruction) → IsEcall i → Post (λ j. j ≡ i) (Executors.execute i)
unfolding Executors.execute Executors.execute_pointer Executors.run_executor Executors.ecall
ecall_stays i e = rw e.executor refl

no_jump :
    (p : ℕ) (i : Instruction) (m : Machine)
    → i.is_branch ≡ false
    → Post (λ x. x ≡ m) (jump_if p i m)
unfolding jump_if
no_jump p i m e = rw e refl

left :
    (p : ℕ) (i : Instruction) (m : Machine)
    → i ≡ m.instrs p
    → InDe p m
    → Left p (into_em m.de_st.load (exit_if p i (set_instr m p i)))
unfolding into_em exit_if HazardUnit.exit Stage.extend
left p i m e d =
    rw
      (ap (λ (x : Instruction). same_type type_system x.type) e
        ∙ ap (same_type type_system) d.object.type)
      (record {
        runs = record {
          is_stall = d.runs.is_stall;
          hazard_stall = d.em_hazard;
          instr = d.runs.instr;
        };
        object = rw (==_self p) (subst IsEcall (sym e) d.object);
        de_stopped = ap (λ n. u32 (n + 5)) d.de_running;
        de_hazard = refl;
        em_running = d.em_running;
        mw_running = d.mw_running;
      })

execute_object-Left :
    (m : Machine) (p : ℕ) → InDe p m → Post (Left p) (execute_object m.de_st.load m p)
unfolding execute_object
execute_object-Left m p d =
    Post-bind (λ i. i ≡ m.instrs p) (Left p) (Executors.execute (m.instrs p)) _
      (ecall_stays (m.instrs p) d.object)
      (λ i e.
        Post-bind (λ x. x ≡ set_instr m p i) (Left p) (jump_if p i (set_instr m p i)) _
          (no_jump p i (set_instr m p i) (subst (λ x. x.is_branch ≡ false) (sym e) d.object.branch))
          (λ x s.
            subst (λ y. Left p (into_em m.de_st.load (exit_if p i y))) (sym s) (left p i m e d)))

pub execute-Left : (m : Machine) (p : ℕ) → InDe p m → Post (Left p) (execute m)
unfolding execute
execute-Left m p d =
    let de = m.de_st.load in
    let m₁ = set_em_stall m (de.is_stall || de.hazard_stall) in
    entered (Left p) de.is_stall de.hazard_stall (is_stop m.em_st) de.instr p _
      (execute_object de m₁) d.runs.is_stall d.runs.hazard_stall (running m.em_st d.em_running)
      d.runs.instr
      (execute_object-Left m₁ p (record {
        runs = d.runs;
        object = d.object;
        de_running = d.de_running;
        em_running = d.em_running;
        em_hazard = d.em_hazard;
        mw_running = d.mw_running;
      }))

pub Left-InEm :
    (p : ℕ) (m : Machine) (r : Pipeline.Pipeline × Memory)
    → Left p m
    → InEm p (committed (update_stages m) r)
unfolding committed update_stages Stage.update
Left-InEm p m r l =
    rw (l.em_running, l.mw_running, l.de_stopped)
      (record {
        runs = l.runs;
        object = l.object;
        de_stopped = refl;
        de_hazard = l.de_hazard;
        mw_hazard = refl;
        mw_running = refl;
      })

pub Left-back : (p : ℕ) (a b : Machine) → SameBack a b → Left p a → Left p b
Left-back p a b s h = record {
  runs = subst (λ (x : Back). Runs x.0.1.store p) (sym s) h.runs;
  object = subst (λ (x : Back). IsEcall (x.1.1 p)) (sym s) h.object;
  de_stopped = ap (λ (x : Back). x.0.0.stop_count) s ∙ h.de_stopped;
  de_hazard = ap (λ (x : Back). x.0.0.load.hazard_stall) s ∙ h.de_hazard;
  em_running = ap (λ (x : Back). x.0.1.stop_count) s ∙ h.em_running;
  mw_running = ap (λ (x : Back). x.1.0.stop_count) s ∙ h.mw_running;
}
