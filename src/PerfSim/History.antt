-- ===== src/PerfSim/History.antt =====
-- The instructions that retire in the cycles of a run, seen from the MW latch: `writeBack` and the loop
-- of `run` of src/PerfSim.cpp.
use perf_sim.Base.{
  ℕ, zero, suc, ◌+◌, ◌^◌, ◌≤◌, ◌<◌, ◌≢◌, ◌≡◌, refl, sym, ap, ◌∙◌, subst, Bool, true, false, Option,
  none, some, List, [], ◌∷◌, ◌++◌, inl, inr, arith, Result, ok, err, ◌>>=◌, u64, length-append,
  if◌then◌else◌, length, Post-ok, Bool-cases,
}
use mathlib.Core.List.{append_assoc}
use perf_sim.Instruction.{Instruction}
use perf_sim.Machine.{Machine, Config}
use perf_sim.HazardUnit.{is_live}
use perf_sim.PerfSim.{cycle, run, is_ecall}
use perf_sim.PerfSim.Clock.{Inv, Counted, Cycled, cycle-Cycled}

-- The instruction that the next `writeBack` retires, if any: the one in the MW latch, unless that is
-- stalled.
abbrev pub retiring : Machine → List Instruction
retiring m =
    if is_live m.mw_st.load
    then elim m.mw_st.load.instr [ none ↦ [] | some p ↦ m.instrs p ∷ [] ]
    else []

-- What retires in so many cycles, the latest first, and the machine after them.
unfoldable pub retires : ℕ → ℕ → ℕ → Machine → Result (List Instruction × Machine)
retires end_id d_data zero m = ok ([], m)
retires end_id d_data (suc n) m =
    cycle end_id d_data m >>= λ m'. retires end_id d_data n m' >>= λ r. ok (r.0 ++ retiring m, r.1)

-- What one cycle does, by what retires in it.
record Stepped (m m' : Machine) : Type 0 where
  inv : Inv m'
  config : m'.config ≡ m.config
  clocks : m'.clocks ≡ u64 (m.clocks + 1)
  ic : m'.ic ≡ u64 (m.ic + length (retiring m))
  trace : m'.trace ≡ (if m.config.dump_trace then retiring m ++ m.trace else m.trace)
  stop :
      m.is_stop ≡ false
      → m'.is_stop ≡ true
      → (e : Instruction) × (retiring m ≡ e ∷ []) × (is_ecall e.name ≡ true)

differ : true ≢ false
differ h = cc

raised :
    (i : Instruction) (m m' : Machine)
    → m.is_stop ≡ false
    → m'.is_stop ≡ true
    → m'.is_stop ≡ (if is_ecall i.name then true else m.is_stop)
    → is_ecall i.name ≡ true
raised i m m' running stopped s = elim (Bool-cases (is_ecall i.name)) [
  | inl e ↦ e
  | inr e ↦
      absurd
        (differ (sym stopped ∙ s ∙ ap (λ (b : Bool). if b then true else m.is_stop) e ∙ running))
]

cycle-Stepped : (m m' : Machine) → m.ic < 2 ^ 64 → Cycled m m' → Counted m m' → Stepped m m'
cycle-Stepped m m' small c (inl (dead, i, s, t)) = record {
  inv = c.inv;
  config = c.config;
  clocks = c.clocks;
  ic = rw dead (i ∙ omega arith);
  trace = rw dead (t ∙ same m.config.dump_trace m.trace);
  stop = λ running stopped. absurd (differ (sym stopped ∙ s ∙ running));
}
  where
    same : (b : Bool) (l : List Instruction) → l ≡ (if b then l else l)
    same true l = refl
    same false l = refl
cycle-Stepped m m' small c (inr (p, live, e, i, s, t)) =
    let one : retiring m ≡ m.instrs p ∷ [] = rw (live, e) refl in
    record {
      inv = c.inv;
      config = c.config;
      clocks = c.clocks;
      ic = rw one i;
      trace = rw one t;
      stop = λ running stopped. (m.instrs p, one, raised (m.instrs p) m m' running stopped s);
    }

-- A run in so many cycles, with all that retires in them.
pub record Ran (end_id d_data n : ℕ) (m m' : Machine) (is : List Instruction) : Type 0 where
  pub retires : retires end_id d_data n m ≡ ok (is, m')
  pub inv : Inv m'
  pub config : m'.config ≡ m.config
  pub clocks : m'.clocks ≡ u64 (m.clocks + n)
  pub ic : m'.ic ≡ u64 (m.ic + length is)
  pub trace : m'.trace ≡ (if m.config.dump_trace then is ++ m.trace else m.trace)
  pub last :
      (e : Instruction) × (earlier : List Instruction) × (is ≡ e ∷ earlier)
      × (is_ecall e.name ≡ true)

-- A run that ends in the next cycle, and one that goes on.
Ran-last :
    (end_id d_data : ℕ) (m m' : Machine)
    → cycle end_id d_data m ≡ ok m'
    → m.is_stop ≡ false
    → m'.is_stop ≡ true
    → Stepped m m'
    → Ran end_id d_data 1 m m' (retiring m)
unfolding retires
Ran-last end_id d_data m m' c running stopped s =
    let (e, one, name) = s.stop running stopped in
    record {
      retires = rw c refl;
      inv = s.inv;
      config = s.config;
      clocks = s.clocks;
      ic = s.ic;
      trace = s.trace;
      last = (e, [], one, name);
    }

sum_of : (a b x y : ℕ) → b ≡ u64 (a + x) → u64 (b + y) ≡ u64 (a + (y + x))
sum_of a b x y h = omega arith

logged :
    (b' b : Bool) (t t' k is : List Instruction)
    → b' ≡ b
    → t' ≡ (if b then k ++ t else t)
    → (if b' then is ++ t' else t') ≡ (if b then (is ++ k) ++ t else t)
logged b' true t t' k is e h = rw (e, h) (sym (append_assoc is k t))
logged b' false t t' k is e h = rw e h

Ran-then :
    (end_id d_data n : ℕ) (m m₁ m' : Machine) (is : List Instruction)
    → cycle end_id d_data m ≡ ok m₁
    → Stepped m m₁
    → Ran end_id d_data n m₁ m' is
    → Ran end_id d_data (suc n) m m' (is ++ retiring m)
unfolding retires
Ran-then end_id d_data n m m₁ m' is c s r =
    let (e, earlier, h, name) = r.last in
    record {
      retires = rw (c, r.retires) refl;
      inv = r.inv;
      config = r.config ∙ s.config;
      clocks =
          r.clocks
          ∙ sum_of m.clocks m₁.clocks 1 n s.clocks
          ∙ ap (λ (k : ℕ). u64 (m.clocks + k)) (omega arith);
      ic =
          r.ic
          ∙ sum_of m.ic m₁.ic (length (retiring m)) (length is) s.ic
          ∙ ap (λ (k : ℕ). u64 (m.ic + k)) (sym (length-append {0} is (retiring m)));
      trace =
          r.trace
          ∙ logged m₁.config.dump_trace m.config.dump_trace m.trace m₁.trace (retiring m) is
              (ap (λ (g : Config). g.dump_trace) s.config) s.trace;
      last = (e, earlier ++ retiring m, ap (λ (l : List Instruction). l ++ retiring m) h, name);
    }

if_stopped : (m : Machine) (b : Bool) → b ≡ true → (if b then some (ok m) else none) ≡ some (ok m)
if_stopped m b e = rw e refl

loop_stopped :
    (m : Machine) (b : Bool) (rest : Option (Result Machine))
    → b ≡ true
    → elim b [ true ↦ some (ok m) | false ↦ rest ] ≡ some (ok m)
loop_stopped m b rest e = rw e refl

no_fuel : (m m' : Machine) (b : Bool) → b ≡ false → (if b then some (ok m) else none) ≢ some (ok m')
no_fuel m m' true e h = cc
no_fuel m m' false e h = cc

-- A round of the loop that goes on and ends with a machine.
went :
    (m m' : Machine) (b : Bool) (c : Result Machine) (f : Machine → Option (Result Machine))
    → b ≡ false
    → elim b [ true ↦ some (ok m) | false ↦ elim c [ ok a ↦ f a | err e ↦ some (err e) ] ]
      ≡ some (ok m')
    → (a : Machine) × (c ≡ ok a) × (f a ≡ some (ok m'))
went m m' true c f e h = cc
went m m' false (ok a) f e h = (a, refl, h)
went m m' false (err x) f e h = cc

some_ok : {m m' : Machine} → some (ok m) ≡ some (ok m') → m ≡ m'
some_ok h = cc

below : (a b : ℕ) → a ≡ u64 b → a < 2 ^ 64
below a b h = omega arith

stopped-run :
    (end_id d_data fuel : ℕ) (m : Machine)
    → m.is_stop ≡ true
    → run end_id d_data fuel m ≡ some (ok m)
unfolding run
stopped-run end_id d_data zero m s = if_stopped m m.is_stop s
stopped-run end_id d_data (suc fuel) m s = loop_stopped m m.is_stop _ s

-- The runs that are described.
Described : ℕ → ℕ → ℕ → Machine → Machine → Type 0
Described end_id d_data fuel m m' =
    (n : ℕ) × (is : List Instruction) × (n ≤ fuel) × Ran end_id d_data n m m' is

-- The cycles left, once the machine after the first is known.
rest-Described :
    (end_id d_data fuel : ℕ) (m m₁ m' : Machine)
    → cycle end_id d_data m ≡ ok m₁
    → m.is_stop ≡ false
    → Stepped m m₁
    → (m₁.is_stop ≡ false → Described end_id d_data fuel m₁ m')
    → run end_id d_data fuel m₁ ≡ some (ok m')
    → Described end_id d_data (suc fuel) m m'
unfolding Described
rest-Described end_id d_data fuel m m₁ m' c running s ih h = elim (Bool-cases m₁.is_stop) [
  | inl stopped ↦
      let e : m₁ ≡ m' = some_ok (sym (stopped-run end_id d_data fuel m₁ stopped) ∙ h) in
      (
        1,
        retiring m,
        omega arith,
        subst (λ x. Ran end_id d_data 1 m x (retiring m)) e
            (Ran-last end_id d_data m m₁ c running stopped s),
      )
  | inr on ↦
      let (n, is, l, r) = ih on in
      (suc n, is ++ retiring m, omega arith, Ran-then end_id d_data n m m₁ m' is c s r)
]

-- A run that ends without an exception, from a machine that is not stopped and has a zero
-- register of 0, an empty store queue and an instruction count below 2 ^ 64, is some number of
-- cycles, at most the fuel, after which the last instruction that retired is an ECALL. The clock
-- has grown by the number of cycles and the instruction count by that of the instructions that
-- retired, modulo 2 ^ 64, the trace by exactly these if the configuration dumps it, and the
-- configuration, the zero register and the empty queue are kept.
pub run-Ran :
    (end_id d_data fuel : ℕ) (m m' : Machine)
    → Inv m
    → m.ic < 2 ^ 64
    → m.is_stop ≡ false
    → run end_id d_data fuel m ≡ some (ok m')
    → (n : ℕ) × (is : List Instruction) × (n ≤ fuel) × Ran end_id d_data n m m' is
unfolding Described run
run-Ran end_id d_data zero m m' i small running h = absurd (no_fuel m m' m.is_stop running h)
run-Ran end_id d_data (suc fuel) m m' i small running h =
    let (m₁, c, k) =
      went m m' m.is_stop (cycle end_id d_data m) (run end_id d_data fuel) running h in
    let y = Post-ok (Cycled m) _ (cycle-Cycled end_id d_data m i) c in
    let s = cycle-Stepped m m₁ small y y.counted in
    rest-Described end_id d_data fuel m m₁ m' c running s
      (λ on. run-Ran end_id d_data fuel m₁ m' s.inv (below _ _ s.ic) on k) k
