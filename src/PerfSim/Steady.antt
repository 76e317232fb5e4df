-- ===== src/PerfSim/Steady.antt =====
-- What the stages of a cycle leave alone: the zero register, the counters, the stop flag and an
-- empty store queue.
pub mod Operands
pub mod Front
pub mod Access
use perf_sim.Base.{
  ℕ, ◌≡◌, refl, ap, ◌∙◌, Bool, true, false, Option, none, some, [], arith, Result, ok, err, ◌>>=◌,
  Post, Post-bind, Post-mono, deref, Bool-cases, inl, inr,
}
use perf_sim.Types.{RegName, access_write}
use perf_sim.Instruction.{Register}
use perf_sim.Stage.{is_stop}
use perf_sim.RegFile.{RegFile, get_reg}
use perf_sim.RegFile
use perf_sim.Pipeline.{Pipeline}
use perf_sim.Machine.{Machine}
use perf_sim.HazardUnit
use perf_sim.PerfSim.{unlock_if}

pub record Steady (m m' : Machine) : Type 0 where
  pub zero_reg : m'.rf.regs 0 ≡ m.rf.regs 0
  pub ic : m'.ic ≡ m.ic
  pub clocks : m'.clocks ≡ m.clocks
  pub is_stop : m'.is_stop ≡ m.is_stop
  pub config : m'.config ≡ m.config
  pub trace : m'.trace ≡ m.trace
  pub empty : m.pipeline.queue ≡ [] → m'.pipeline.queue ≡ []

pub Steady-refl : (m : Machine) → Steady m m
Steady-refl m = record {
  zero_reg = refl;
  ic = refl;
  clocks = refl;
  is_stop = refl;
  config = refl;
  trace = refl;
  empty = λ e. e;
}

pub Steady-trans : {a b c : Machine} → Steady a b → Steady b c → Steady a c
Steady-trans p q = record {
  zero_reg = q.zero_reg ∙ p.zero_reg;
  ic = q.ic ∙ p.ic;
  clocks = q.clocks ∙ p.clocks;
  is_stop = q.is_stop ∙ p.is_stop;
  config = q.config ∙ p.config;
  trace = q.trace ∙ p.trace;
  empty = λ e. q.empty (p.empty e);
}

abbrev pub SameZero : RegFile → RegFile → Type 0
SameZero rf rf' = rf'.regs 0 ≡ rf.regs 0

pub write-SameZero : (rf : RegFile) (reg : Register) → Post (SameZero rf) (RegFile.write rf reg)
unfolding RegFile.write
write-SameZero rf reg = ground arith

pub get_reg-SameZero :
    (rf : RegFile) (num : RegName) → Post (λ r. SameZero rf r.1) (get_reg rf num access_write)
unfolding get_reg
get_reg-SameZero rf num = ground arith

pub with_rf-Steady :
    (m : Machine) (rf : RegFile) → SameZero m.rf rf → Steady m (record m { rf = rf })
with_rf-Steady m rf z = record {
  zero_reg = z;
  ic = refl;
  clocks = refl;
  is_stop = refl;
  config = refl;
  trace = refl;
  empty = λ e. e;
}

pub hu_write-Steady : (m : Machine) (p : ℕ) → Post (Steady m) (HazardUnit.write m p)
unfolding HazardUnit.write
hu_write-Steady m p = elim (Bool-cases (HazardUnit.writes_rd (m.instrs p).type)) [
  | inl w ↦ rw w (
      Post-bind (SameZero m.rf) (Steady m) (RegFile.write m.rf (m.instrs p).rd)
        (λ rf. ok (record m { rf = rf })) (write-SameZero m.rf (m.instrs p).rd) (with_rf-Steady m))
  | inr w ↦ rw w (Steady-refl m)
]

-- A step that leaves these parts of the machine as they are.
pub still :
    (m m' : Machine)
    → m'.rf ≡ m.rf
    → m'.pipeline ≡ m.pipeline
    → m'.ic ≡ m.ic
    → m'.clocks ≡ m.clocks
    → m'.is_stop ≡ m.is_stop
    → m'.config ≡ m.config
    → m'.trace ≡ m.trace
    → Steady m m'
still m m' r p i c s g t = record {
  config = g;
  trace = t;
  zero_reg = ap (λ (rf : RegFile). rf.regs 0) r;
  ic = i;
  clocks = c;
  is_stop = s;
  empty = λ e. ap (λ (q : Pipeline). q.queue) p ∙ e;
}

-- A step after a step.
pub then_Steady :
    (m : Machine) (r : Result Machine) (f : Machine → Result Machine)
    → Post (Steady m) r
    → ((x : Machine) → Post (Steady x) (f x))
    → Post (Steady m) (r >>= f)
then_Steady m (ok x) f h k = Post-mono _ _ (f x) (k x) (λ y s. Steady-trans h s)
then_Steady m (err e) f h k = tt

pub from_Steady :
    {a b : Machine} (r : Result Machine) → Steady a b → Post (Steady b) r → Post (Steady a) r
from_Steady r s h = Post-mono _ _ r h (λ y t. Steady-trans s t)

pub unlock_if-Steady : (b : Bool) (m : Machine) (p : Option ℕ) → Post (Steady m) (unlock_if b m p)
unfolding unlock_if
unlock_if-Steady true m none = tt
unlock_if-Steady true m (some p) = hu_write-Steady m p
unlock_if-Steady false m p = Steady-refl m

-- A pointer that may be null, then a step on what it points to.
pub deref-Steady :
    (m : Machine) (o : Option ℕ) (f : ℕ → Result Machine)
    → ((p : ℕ) → Post (Steady m) (f p))
    → Post (Steady m) (deref o >>= f)
deref-Steady m none f k = tt
deref-Steady m (some p) f k = k p
