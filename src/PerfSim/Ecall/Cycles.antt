-- ===== src/PerfSim/Ecall/Cycles.antt =====
-- The three cycles from the DE latch to the stop flag: `PerfSim::run` of src/PerfSim.cpp.
use perf_sim.Base.{
  ℕ, ◌≡◌, refl, sym, ap, ◌∙◌, Bool, true, false, ◌||◌, Option, some, Result, ◌>>=◌, deref,
  if◌then◌else◌, Post, Post-bind, Post-mono, subst,
}
use perf_sim.Types.{InstrName}
use perf_sim.PerfSim.Clock.{any, later, later-Steady, cycle-parts}
use perf_sim.PerfSim.Steady.{Steady}
use perf_sim.Stage.{Latch, is_stop}
use perf_sim.Stage
use perf_sim.RegFile
use perf_sim.Pipeline
use perf_sim.Machine.{Machine}
use perf_sim.PerfSim.{
  write_back, write_object, write_rd, retire, memory_access, execute, tick, update_stages,
  committed, cycle,
}
use perf_sim.PerfSim.Ecall.Latches.{
  Back, InDe, InEm, InMw, IsEcall, Runs, SameBack, write_back-SameBack,
}
use perf_sim.PerfSim.Ecall.Access.{Accessed, memory_access-Accessed}
use perf_sim.PerfSim.Ecall.Stages.{front, front-Post}
use perf_sim.PerfSim.Ecall.Execute.{Left, Left-InEm, Left-back, execute-Left}
use perf_sim.PerfSim.Ecall.Hand.{
  Handed, Handed-InMw, Handed-back, execute-Handed, memory_access-Handed,
}

InDe-back : (p : ℕ) (a b : Machine) → SameBack a b → InDe p a → InDe p b
InDe-back p a b s h = record {
  runs = subst (λ (x : Back). Runs x.0.0.load p) (sym s) h.runs;
  object = subst (λ (x : Back). IsEcall (x.1.1 p)) (sym s) h.object;
  de_running = ap (λ (x : Back). x.0.0.stop_count) s ∙ h.de_running;
  em_running = ap (λ (x : Back). x.0.1.stop_count) s ∙ h.em_running;
  em_hazard = ap (λ (x : Back). x.0.1.store.hazard_stall) s ∙ h.em_hazard;
  mw_running = ap (λ (x : Back). x.1.0.stop_count) s ∙ h.mw_running;
}

InEm-back : (p : ℕ) (a b : Machine) → SameBack a b → InEm p a → InEm p b
InEm-back p a b s h = record {
  runs = subst (λ (x : Back). Runs x.0.1.load p) (sym s) h.runs;
  object = subst (λ (x : Back). IsEcall (x.1.1 p)) (sym s) h.object;
  de_stopped = ap (λ (x : Back). x.0.0.stop_count) s ∙ h.de_stopped;
  de_hazard = ap (λ (x : Back). x.0.0.load.hazard_stall) s ∙ h.de_hazard;
  mw_hazard = ap (λ (x : Back). x.1.0.store.hazard_stall) s ∙ h.mw_hazard;
  mw_running = ap (λ (x : Back). x.1.0.stop_count) s ∙ h.mw_running;
}

InDe-Accessed : (p : ℕ) (a b : Machine) → Accessed a b → InDe p a → InDe p b
InDe-Accessed p a b s h = record {
  runs = subst (λ (x : Stage.Stage Latch). Runs x.load p) (sym s.de_st) h.runs;
  object = subst IsEcall (sym (s.object p h.object)) h.object;
  de_running = ap (λ (x : Stage.Stage Latch). x.stop_count) s.de_st ∙ h.de_running;
  em_running = ap (λ (x : Stage.Stage Latch). x.stop_count) s.em_st ∙ h.em_running;
  em_hazard = ap (λ (x : Stage.Stage Latch). x.store.hazard_stall) s.em_st ∙ h.em_hazard;
  mw_running = s.mw_stop ∙ h.mw_running;
}

-- The first cycle.
pub cycle-InEm :
    (end_id d_data : ℕ) (m : Machine) (p : ℕ) → InDe p m → Post (InEm p) (cycle end_id d_data m)
unfolding cycle front
cycle-InEm end_id d_data m p d =
    Post-bind (InDe p) (InEm p) (write_back m) _
      (Post-mono (SameBack m) (InDe p) _ (write_back-SameBack m) (λ a s. InDe-back p m a s d))
      (λ m₁ d₁.
        Post-bind (InDe p) (InEm p) (memory_access end_id d_data m₁) _
          (Post-mono (Accessed m₁) (InDe p) _ (memory_access-Accessed end_id d_data m₁)
            (λ a s. InDe-Accessed p m₁ a s d₁))
          (λ m₂ d₂. Post-bind (Left p) (InEm p) (execute m₂) front (execute-Left m₂ p d₂) (λ m₃ l.
            front-Post (Left p) (InEm p) 4 m₃ l.de_stopped
              (λ b. record {
                runs = l.runs;
                object = l.object;
                de_stopped = l.de_stopped;
                de_hazard = l.de_hazard;
                em_running = l.em_running;
                mw_running = l.mw_running;
              })
              (Left-back p) (Left-InEm p))))

-- The second.
pub cycle-InMw :
    (end_id d_data : ℕ) (m : Machine) (p : ℕ) → InEm p m → Post (InMw p) (cycle end_id d_data m)
unfolding cycle front
cycle-InMw end_id d_data m p d =
    Post-bind (InEm p) (InMw p) (write_back m) _
      (Post-mono (SameBack m) (InEm p) _ (write_back-SameBack m) (λ a s. InEm-back p m a s d))
      (λ m₁ d₁.
        Post-bind (Handed p) (InMw p) (memory_access end_id d_data m₁) _
          (memory_access-Handed end_id d_data m₁ p d₁)
          (λ m₂ d₂.
            Post-bind (Handed p) (InMw p) (execute m₂) front (execute-Handed m₂ p d₂) (λ m₃ l.
              front-Post (Handed p) (InMw p) 3 m₃ l.de_stopped
                (λ b. record {
                  runs = l.runs;
                  name = l.name;
                  de_stopped = l.de_stopped;
                  de_hazard = l.de_hazard;
                  mw_running = l.mw_running;
                })
                (Handed-back p) (Handed-InMw p))))

-- The third.
abbrev pub IsOver : Machine → Type 0
IsOver m = m.is_stop ≡ true

stops :
    (m : Machine) (rf : RegFile.RegFile) (p : ℕ)
    → (m.instrs p).name ≡ InstrName.ecall
    → IsOver (retire (record m { rf = rf }) (m.instrs p))
unfolding retire
stops m rf p e = rw e refl

retired :
    (a b : Bool) (o : Option ℕ) (p : ℕ) (x : Result Machine) (f : ℕ → Result Machine)
    → a ≡ false
    → b ≡ false
    → o ≡ some p
    → Post IsOver (f p)
    → Post IsOver (if a || b then x else (deref o >>= f))
retired a b o p x f ea eb eo h = rw (ea, eb, eo) h

write_back-IsOver : (m : Machine) (p : ℕ) → InMw p m → Post IsOver (write_back m)
unfolding write_back write_object
write_back-IsOver m p d =
    let mw = m.mw_st.load in
    retired mw.is_stall mw.hazard_stall mw.instr p _ (write_object m) d.runs.is_stall
      d.runs.hazard_stall d.runs.instr
      (Post-bind (λ rf. Unit {0}) IsOver (write_rd m (m.instrs p)) _ (any _)
        (λ rf u. stops m rf p d.name))

pub cycle-IsOver :
    (end_id d_data : ℕ) (m : Machine) (p : ℕ) → InMw p m → Post IsOver (cycle end_id d_data m)
unfolding tick update_stages committed
cycle-IsOver end_id d_data m p d = rw (cycle-parts end_id d_data m) (
    Post-bind IsOver IsOver (write_back m) _ (write_back-IsOver m p d) (λ m₁ o.
      Post-bind IsOver IsOver (later end_id d_data m₁) tick
        (Post-mono (Steady m₁) IsOver _ (later-Steady end_id d_data m₁) (λ a s. s.is_stop ∙ o))
        (λ m₂ o₂.
          Post-bind (λ r. Unit {0}) IsOver (Pipeline.update m₂.pipeline m₂.memory) _ (any _)
            (λ r u. o₂))))
