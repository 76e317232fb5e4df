-- ===== src/PerfSim/Ecall.antt =====
-- The way of an ECALL through the pipeline, from the DE latch to the stop flag: `execute`, `memoryAccess`
-- and `writeBack` of src/PerfSim.cpp, and `HazardUnit::exit`.
pub mod Latches
mod Access
mod Stages
mod Execute
mod Hand
pub mod Cycles
use perf_sim.Base.{
  ℕ, zero, suc, ◌+◌, ◌-◌, ◌≤◌, ◌≡◌, refl, sym, Bool, true, false, Option, none, some, arith, Result,
  ok, err, ◌>>=◌, if◌then◌else◌, Post, Post-mono, subst,
}
use perf_sim.PerfSim.Run.{run-enough}
use perf_sim.Stage.{is_stop}
use perf_sim.Machine.{Machine}
use perf_sim.PerfSim.{cycle, run}
use perf_sim.PerfSim.Ecall.Latches.{InDe, InEm, InMw}
use perf_sim.PerfSim.Ecall.Cycles.{cycle-InEm, cycle-InMw, IsOver, cycle-IsOver}

-- A run that ends on this fuel.
abbrev pub Halts : ℕ → ℕ → ℕ → Machine → Type 0
Halts end_id d_data fuel m = (r : Result Machine) × (run end_id d_data fuel m ≡ some r)

looped :
    (m : Machine) (b : Bool) (c : Result Machine) (f : Machine → Option (Result Machine))
    → Post (λ a. (r : Result Machine) × (f a ≡ some r)) c
    → (r : Result Machine) × (elim b [
      | true ↦ some (ok m)
      | false ↦ elim c [ ok a ↦ f a | err e ↦ some (err e) ]
    ]
        ≡ some r)
looped m true c f h = (ok m, refl)
looped m false (ok a) f h = h
looped m false (err e) f h = (err e, refl)

Halts-cycle :
    (end_id d_data fuel : ℕ) (m : Machine)
    → Post (Halts end_id d_data fuel) (cycle end_id d_data m)
    → Halts end_id d_data (suc fuel) m
unfolding run
Halts-cycle end_id d_data fuel m h =
    looped m m.is_stop (cycle end_id d_data m) (run end_id d_data fuel) h

at_stop : (m : Machine) (b : Bool) → b ≡ true → (if b then some (ok m) else none) ≡ some (ok m)
at_stop m b e = rw e refl

over-Halts : (end_id d_data : ℕ) (m : Machine) → IsOver m → Halts end_id d_data 0 m
unfolding run
over-Halts end_id d_data m o = (ok m, at_stop m m.is_stop o)

InMw-Halts : (end_id d_data : ℕ) (m : Machine) (p : ℕ) → InMw p m → Halts end_id d_data 1 m
InMw-Halts end_id d_data m p d =
    Halts-cycle end_id d_data 0 m
      (Post-mono IsOver _ _ (cycle-IsOver end_id d_data m p d) (over-Halts end_id d_data))

InEm-Halts : (end_id d_data : ℕ) (m : Machine) (p : ℕ) → InEm p m → Halts end_id d_data 2 m
InEm-Halts end_id d_data m p d = Halts-cycle end_id d_data 1 m (
    Post-mono (InMw p) _ _ (cycle-InMw end_id d_data m p d) (λ a i. InMw-Halts end_id d_data a p i))

InDe-Halts : (end_id d_data : ℕ) (m : Machine) (p : ℕ) → InDe p m → Halts end_id d_data 3 m
InDe-Halts end_id d_data m p d = Halts-cycle end_id d_data 2 m (
    Post-mono (InEm p) _ _ (cycle-InEm end_id d_data m p d) (λ a i. InEm-Halts end_id d_data a p i))

-- This many cycles, whether or not the stop flag is raised.
unfoldable pub cycles : ℕ → ℕ → ℕ → Machine → Result Machine
cycles end_id d_data zero m = ok m
cycles end_id d_data (suc count) m = cycle end_id d_data m >>= cycles end_id d_data count

after :
    {x : Machine} (P : Machine → Type 0) (r : Result Machine) (f : Machine → Result Machine)
    → (r >>= f) ≡ ok x
    → ((a : Machine) → f a ≡ ok x → P a)
    → Post P r
after P (ok a) f h k = k a h
after P (err e) f h k = tt

reached :
    (end_id d_data count : ℕ) (m m' : Machine) (p : ℕ)
    → cycles end_id d_data count m ≡ ok m'
    → InDe p m'
    → Halts end_id d_data (count + 3) m
unfolding cycles
reached end_id d_data zero m m' p e d =
    InDe-Halts end_id d_data m p (subst (Post (InDe p)) (sym e) d)
reached end_id d_data (suc count) m m' p e d =
    let more : suc (count + 3) ≡ suc count + 3 = omega arith in
    subst (λ n. Halts end_id d_data n m) more
      (Halts-cycle end_id d_data (count + 3) m (
        after (Halts end_id d_data (count + 3)) (cycle end_id d_data m) (cycles end_id d_data count)
          e (λ a h. reached end_id d_data count a m' p h d)))

-- Where a number of cycles, one after the other, lead from a machine to one with a decoded ECALL,
-- not stalled, in the DE latch, the EM latch free to take it over, and the DE, EM and MW cells
-- not stopped, the loop of the run on the first machine ends, with a machine or an exception, on
-- any fuel of at least three cycles more.
pub ecall-Halts :
    (end_id d_data count fuel : ℕ) (m m' : Machine) (p : ℕ)
    → cycles end_id d_data count m ≡ ok m'
    → InDe p m'
    → count + 3 ≤ fuel
    → Halts end_id d_data fuel m
ecall-Halts end_id d_data count fuel m m' p e d l =
    let h = reached end_id d_data count m m' p e d in
    (h.0, run-enough end_id d_data (count + 3) fuel m h.0 l h.1)
