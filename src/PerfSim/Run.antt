-- ===== src/PerfSim/Run.antt =====
-- The loop of `PerfSim::run` and the constructor: what a run keeps, and its fuel.
use perf_sim.Base.{
  ℕ, zero, suc, [], ◌≤◌, ◌≡◌, refl, ◌∙◌, Bool, true, false, Option, none, some, arith, Result, ok,
  err, Post, Post-bind, Post-mono, if◌then◌else◌, subst,
}
use perf_sim.Types.{AccessType, access_write}
use perf_sim.Instruction.{Register}
use perf_sim.RegFile.{RegFile, get_reg}
use perf_sim.RegFile
use perf_sim.Memory.{Memory, write_word}
use perf_sim.Machine.{Machine, Config, new_machine}
use perf_sim.PerfSim.{cycle, run, start}
use perf_sim.PerfSim.Steady.{SameZero, write-SameZero}
use perf_sim.PerfSim.Clock.{any, Inv, Cycled, cycle-Cycled}

-- A run that returned a machine left the loop.
Ended : Option (Result Machine) → Type 0
Ended none = Unit {0}
Ended (some (err e)) = Unit {0}
Ended (some (ok m)) = Inv m × (m.is_stop ≡ true)

continued :
    (end_id d_data fuel : ℕ) (r : Result Machine)
    → Post Inv r
    → ((m : Machine) → Inv m → Ended (run end_id d_data fuel m))
    → Ended (elim r [ ok m' ↦ run end_id d_data fuel m' | err e ↦ some (err e) ])
unfolding Ended
continued end_id d_data fuel (ok m) i k = k m i
continued end_id d_data fuel (err e) i k = tt

-- The test at the head of the loop.
Ended-last :
    (m : Machine) (b : Bool) → Inv m → m.is_stop ≡ b → Ended (if b then some (ok m) else none)
unfolding Ended
Ended-last m true i e = (i, e)
Ended-last m false i e = tt

Ended-loop :
    (m : Machine) (b : Bool) (rest : Option (Result Machine))
    → Inv m
    → m.is_stop ≡ b
    → Ended rest
    → Ended (elim b [ true ↦ some (ok m) | false ↦ rest ])
unfolding Ended
Ended-loop m true rest i e h = (i, e)
Ended-loop m false rest i e h = h

run-Ended : (end_id d_data fuel : ℕ) (m : Machine) → Inv m → Ended (run end_id d_data fuel m)
unfolding run
run-Ended end_id d_data zero m i = Ended-last m m.is_stop i refl
run-Ended end_id d_data (suc fuel) m i = Ended-loop m m.is_stop _ i refl (
    continued end_id d_data fuel (cycle end_id d_data m)
      (Post-mono (Cycled m) Inv (cycle end_id d_data m) (cycle-Cycled end_id d_data m i)
        (λ x c. c.inv))
      (run-Ended end_id d_data fuel))

-- A run from a machine with a zero register of 0 and an empty store queue, if it ends with a
-- machine, ends with one that has been stopped and still has both.
pub run-Inv :
    (end_id d_data fuel : ℕ) (m m' : Machine)
    → Inv m
    → run end_id d_data fuel m ≡ some (ok m')
    → Inv m' × (m'.is_stop ≡ true)
unfolding Ended
run-Inv end_id d_data fuel m m' i h = subst Ended h (run-Ended end_id d_data fuel m i)

last-loop :
    (m : Machine) (r : Result Machine) (b : Bool) (rest : Option (Result Machine))
    → (if b then some (ok m) else none) ≡ some r
    → elim b [ true ↦ some (ok m) | false ↦ rest ] ≡ some r
last-loop m r true rest h = h
last-loop m r false rest h = cc

loop-loop :
    (m : Machine) (r : Result Machine) (b : Bool) (x y : Option (Result Machine))
    → (x ≡ some r → y ≡ some r)
    → elim b [ true ↦ some (ok m) | false ↦ x ] ≡ some r
    → elim b [ true ↦ some (ok m) | false ↦ y ] ≡ some r
loop-loop m r true x y f h = h
loop-loop m r false x y f h = f h

continued-enough :
    (c r : Result Machine) (f g : Machine → Option (Result Machine))
    → ((m : Machine) → f m ≡ some r → g m ≡ some r)
    → elim c [ ok m' ↦ f m' | err e ↦ some (err e) ] ≡ some r
    → elim c [ ok m' ↦ g m' | err e ↦ some (err e) ] ≡ some r
continued-enough (ok m) r f g k h = k m h
continued-enough (err e) r f g k h = h

-- A run that ends on some fuel, with a machine or an exception, ends with the same on any larger
-- fuel.
pub run-enough :
    (end_id d_data fuel more : ℕ) (m : Machine) (r : Result Machine)
    → fuel ≤ more
    → run end_id d_data fuel m ≡ some r
    → run end_id d_data more m ≡ some r
unfolding run
run-enough end_id d_data zero zero m r l h = h
run-enough end_id d_data zero (suc more) m r l h = last-loop m r m.is_stop _ h
run-enough end_id d_data (suc fuel) zero m r l h = absurd (omega arith)
run-enough end_id d_data (suc fuel) (suc more) m r l h =
    loop-loop m r m.is_stop _ _
      (continued-enough (cycle end_id d_data m) r (run end_id d_data fuel) (run end_id d_data more)
        (λ m₁. run-enough end_id d_data fuel more m₁ r (omega arith)))
      h

get_reg-zero :
    (rf : RegFile) (num : ℕ) (acc : AccessType)
    → Post (λ (r : Register × RegFile). r.1.regs 0 ≡ rf.regs 0) (get_reg rf num acc)
unfolding get_reg
get_reg-zero rf num acc = ground arith

-- What every machine that the constructor returns has.
pub record Started (config : Config) (m : Machine) : Type 0 where
  pub inv : Inv m
  pub configured : m.config ≡ config
  pub ic : m.ic ≡ 0
  pub clocks : m.clocks ≡ 0
  pub running : m.is_stop ≡ false
  pub trace : m.trace ≡ []

pub start-Started :
    (config : Config) (load : Memory → Result Memory) (entry : ℕ)
    → Post (Started config) (start config load entry)
unfolding start new_machine
start-Started config load entry =
    let m = new_machine config in
    Post-bind (λ x. Unit {0}) (Started config) (load m.memory) _ (any _)
      (λ memory u.
        Post-bind _ (Started config) (get_reg m.rf 2 access_write) _
          (get_reg-zero m.rf 2 access_write)
          (λ r z.
            Post-bind (λ x. Unit {0}) (Started config) (write_word memory 0 _ 4) _ (any _)
              (λ memory' v.
                Post-bind (SameZero r.1) (Started config) (RegFile.write r.1 _) _
                  (write-SameZero r.1 _)
                  (λ rf' s. record {
                    inv = record { zero_reg = s ∙ z; empty = refl };
                    configured = refl;
                    ic = refl;
                    clocks = refl;
                    running = refl;
                    trace = refl;
                  }))))
