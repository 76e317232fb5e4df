-- ===== src/PerfSim/Ecall/Latches.antt =====
-- Where the ECALL is, latch by latch, and the parts of the machine that hold it.
use perf_sim.Base.{
  ℕ, ◌≡◌, refl, Bool, true, false, not, ◌&&◌, ◌||◌, Option, none, some, arith, ◌>>=◌, deref, Post,
  Post-bind, Bool-cases, inl, inr,
}
use perf_sim.Types.{InstrName, type_system, access_none}
use perf_sim.Instruction.{Executor, Instruction}
use perf_sim.PerfSim.Clock.{any}
use perf_sim.Stage.{Latch}
use perf_sim.Stage
use perf_sim.Machine.{Machine}
use perf_sim.HazardUnit
use perf_sim.PerfSim.{write_back, write_object, write_rd, retire, unlock_if}

-- A decoded ECALL.
pub record IsEcall (i : Instruction) : Type 0 where
  pub type : i.type ≡ type_system
  pub name : i.name ≡ InstrName.ecall
  pub executor : i.main_executor ≡ some Executor.ecall
  pub branch : i.is_branch ≡ false
  pub access : i.mem_acc_type ≡ access_none

-- The latch runs the object `p`.
pub record Runs (l : Latch) (p : ℕ) : Type 0 where
  pub is_stall : l.is_stall ≡ false
  pub hazard_stall : l.hazard_stall ≡ false
  pub instr : l.instr ≡ some p

-- The last three latches and the objects.
abbrev pub Back : Type 0
Back = (Stage.Stage Latch × Stage.Stage Latch) × (Stage.Stage Latch × (ℕ → Instruction))

abbrev pub back : Machine → Back
back m = ((m.de_st, m.em_st), (m.mw_st, m.instrs))

-- The ECALL `p` waits in the DE latch, and the latches after it move.
pub record InDe (p : ℕ) (m : Machine) : Type 0 where
  pub runs : Runs m.de_st.load p
  pub object : IsEcall (m.instrs p)
  pub de_running : m.de_st.stop_count ≡ 0
  pub em_running : m.em_st.stop_count ≡ 0
  pub em_hazard : m.em_st.store.hazard_stall ≡ false
  pub mw_running : m.mw_st.stop_count ≡ 0

-- Then it is in the EM latch, and the stages before are stopped.
pub record InEm (p : ℕ) (m : Machine) : Type 0 where
  pub runs : Runs m.em_st.load p
  pub object : IsEcall (m.instrs p)
  pub de_stopped : m.de_st.stop_count ≡ 4
  pub de_hazard : m.de_st.load.hazard_stall ≡ true
  pub mw_hazard : m.mw_st.store.hazard_stall ≡ false
  pub mw_running : m.mw_st.stop_count ≡ 0

-- Then it is in the MW latch.
pub record InMw (p : ℕ) (m : Machine) : Type 0 where
  pub runs : Runs m.mw_st.load p
  pub name : (m.instrs p).name ≡ InstrName.ecall

-- What `writeBack` and an unlocking keep.
abbrev pub SameBack : Machine → Machine → Type 0
SameBack m m' = back m' ≡ back m

hu_write-SameBack : (m : Machine) (p : ℕ) → Post (SameBack m) (HazardUnit.write m p)
unfolding HazardUnit.write
hu_write-SameBack m p = ground arith

pub unlock_if-SameBack :
    (b : Bool) (m : Machine) (o : Option ℕ) → Post (SameBack m) (unlock_if b m o)
unfolding unlock_if
unlock_if-SameBack true m none = tt
unlock_if-SameBack true m (some p) = hu_write-SameBack m p
unlock_if-SameBack false m o = refl

object-SameBack : (m : Machine) (o : Option ℕ) → Post (SameBack m) (deref o >>= write_object m)
unfolding write_object
object-SameBack m none = tt
object-SameBack m (some p) =
    Post-bind (λ rf. Unit {0}) (SameBack m) (write_rd m (m.instrs p)) _ (any _)
      (λ rf u. unfold retire in refl)

pub write_back-SameBack : (m : Machine) → Post (SameBack m) (write_back m)
unfolding write_back
write_back-SameBack m =
    let mw = m.mw_st.load in
    elim (Bool-cases (mw.is_stall || mw.hazard_stall)) [
      | inl b ↦ rw b (unlock_if-SameBack (not mw.is_stall && mw.hazard_stall) m mw.instr)
      | inr b ↦ rw b (object-SameBack m mw.instr)
    ]
