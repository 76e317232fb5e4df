-- ===== src/PerfSim/Clock.antt =====
-- The clock: one cycle of the loop of `PerfSim::run`, from `writeBack` to the updates.
use perf_sim.Base.{
  ℕ, ◌+◌, ◌≡◌, refl, ap, ◌∙◌, ◌⊎◌, inl, inr, Bool, true, false, not, ◌&&◌, ◌||◌, Option, none, some,
  [], ◌∷◌, Result, ok, err, ◌>>=◌, Post, Post-bind, Post-mono, >>=_assoc, ltb, deref, u64,
  if◌then◌else◌, Bool-cases,
}
use perf_sim.Instruction.{Instruction, empty_register}
use perf_sim.Memory.{Memory, write_word}
use perf_sim.Pipeline.{Pipeline, cleared_store}
use perf_sim.Pipeline
use perf_sim.Pipeline.Queue.{update-IsEmpty}
use perf_sim.Machine.{Machine}
use perf_sim.HazardUnit.{writes_rd, is_live}
use perf_sim.PerfSim.{
  write_back, write_object, write_rd, retire, unlock_if, memory_access, execute, decode, fetch,
  tick, update_stages, committed, cycle, is_ecall,
}
use perf_sim.PerfSim.Steady.{Steady, Steady-trans, SameZero, write-SameZero, unlock_if-Steady}
use perf_sim.PerfSim.Steady.Access.{memory_access-Steady}
use perf_sim.PerfSim.Steady.Front.{execute-Steady, decode-Steady, fetch-Steady}

-- What a machine has between two cycles.
pub record Inv (m : Machine) : Type 0 where
  pub zero_reg : m.rf.regs 0 ≡ empty_register
  pub empty : m.pipeline.queue ≡ []

-- Nothing retired, or the object in the MW register did: it is counted once, and ECALL stops the run.
abbrev pub Counted : Machine → Machine → Type 0
Counted m m' =
    ((is_live m.mw_st.load ≡ false)
      × (m'.ic ≡ m.ic)
      × (m'.is_stop ≡ m.is_stop)
      × (m'.trace ≡ m.trace))
    ⊎ ((p : ℕ) × (is_live m.mw_st.load ≡ true)
        × (m.mw_st.load.instr ≡ some p)
        × (m'.ic ≡ u64 (m.ic + 1))
        × (m'.is_stop ≡ (if is_ecall (m.instrs p).name then true else m.is_stop))
        × (m'.trace ≡ (if m.config.dump_trace then m.instrs p ∷ m.trace else m.trace)))

pub record Retired (m m' : Machine) : Type 0 where
  pub zero_reg : m'.rf.regs 0 ≡ m.rf.regs 0
  pub clocks : m'.clocks ≡ m.clocks
  pub config : m'.config ≡ m.config
  pub empty : m.pipeline.queue ≡ [] → m'.pipeline.queue ≡ []
  pub counted : Counted m m'

pub any {ℓ} : {A : Type ℓ} (r : Result A) → Post (λ a. Unit {0}) r
any (ok a) = tt
any (err e) = tt

write_rd-SameZero : (m : Machine) (i : Instruction) → Post (SameZero m.rf) (write_rd m i)
unfolding write_rd
write_rd-SameZero m i = elim (Bool-cases (writes_rd i.type)) [
  | inl w ↦ rw w (write-SameZero m.rf i.rd)
  | inr w ↦ rw w refl
]

write_object-Retired :
    (m : Machine) (p : ℕ)
    → is_live m.mw_st.load ≡ true
    → m.mw_st.load.instr ≡ some p
    → Post (Retired m) (write_object m p)
unfolding write_object
write_object-Retired m p live e =
    Post-bind (SameZero m.rf) (Retired m) (write_rd m (m.instrs p))
      (λ rf. ok (retire (record m { rf = rf }) (m.instrs p))) (write_rd-SameZero m (m.instrs p))
      (λ rf z. record {
        zero_reg = z;
        clocks = refl;
        config = refl;
        empty = λ q. q;
        counted = inr (p, live, e, refl, refl, refl);
      })

Steady-Retired : (m m' : Machine) → is_live m.mw_st.load ≡ false → Steady m m' → Retired m m'
Steady-Retired m m' dead s = record {
  config = s.config;
  zero_reg = s.zero_reg;
  clocks = s.clocks;
  empty = s.empty;
  counted = inl (dead, s.ic, s.is_stop, s.trace);
}

object-Retired :
    (m : Machine) (o : Option ℕ)
    → is_live m.mw_st.load ≡ true
    → m.mw_st.load.instr ≡ o
    → Post (Retired m) (deref o >>= write_object m)
object-Retired m none live e = tt
object-Retired m (some p) live e = write_object-Retired m p live e

write_back-Retired : (m : Machine) → Post (Retired m) (write_back m)
unfolding write_back
write_back-Retired m =
    let mw = m.mw_st.load in
    let unlock = not mw.is_stall && mw.hazard_stall in
    elim (Bool-cases (mw.is_stall || mw.hazard_stall)) [
      | inl b ↦ rw b (
          Post-mono (Steady m) (Retired m) (unlock_if unlock m mw.instr)
            (unlock_if-Steady unlock m mw.instr) (λ m' s. Steady-Retired m m' (ap not b) s))
      | inr b ↦ rw b (object-Retired m mw.instr (ap not b) refl)
    ]

-- The four stages after `writeBack`.
pub later : ℕ → ℕ → Machine → Result Machine
later end_id d_data m = do
  m₂ ← memory_access end_id d_data m
  m₃ ← execute m₂
  m₄ ← decode m₃
  fetch m₄

step :
    (m : Machine) (r : Result Machine) (f : Machine → Result Machine)
    → Post (Steady m) r
    → ((x : Machine) → Post (Steady x) (f x))
    → Post (Steady m) (r >>= f)
step m (ok x) f h k = Post-mono _ _ (f x) (k x) (λ y s. Steady-trans h s)
step m (err e) f h k = tt

pub later-Steady : (end_id d_data : ℕ) (m : Machine) → Post (Steady m) (later end_id d_data m)
unfolding later
later-Steady end_id d_data m =
    step m (memory_access end_id d_data m) (λ m₂. execute m₂ >>= λ m₃. decode m₃ >>= fetch)
      (memory_access-Steady end_id d_data m)
      (λ m₂.
        step m₂ (execute m₂) (λ m₃. decode m₃ >>= fetch) (execute-Steady m₂)
          (λ m₃. step m₃ (decode m₃) fetch (decode-Steady m₃) fetch-Steady))

-- The cycle is these two parts and the tick.
pub cycle-parts :
    (end_id d_data : ℕ) (m : Machine)
    → cycle end_id d_data m ≡ (write_back m >>= λ m₁. later end_id d_data m₁ >>= tick)
unfolding cycle later
cycle-parts end_id d_data m = simp >>=_assoc

-- The tick counts, commits the pending store, and moves the stages.
record Ticked (m m' : Machine) : Type 0 where
  zero_reg : m'.rf.regs 0 ≡ m.rf.regs 0
  ic : m'.ic ≡ m.ic
  is_stop : m'.is_stop ≡ m.is_stop
  clocks : m'.clocks ≡ u64 (m.clocks + 1)
  config : m'.config ≡ m.config
  trace : m'.trace ≡ m.trace
  empty : m'.pipeline.queue ≡ []

commit-empty :
    (p : Pipeline) (memory : Memory)
    → p.queue ≡ []
    → Post (λ (r : Pipeline × Memory). r.0.queue ≡ []) (Pipeline.update p memory)
commit-empty p memory e = rw (update-IsEmpty p memory e) (go (ltb 0 p.store.size))
  where
    done : Pipeline
    done = record { id = p.id; store = cleared_store; queue = [] }

    go :
        (b : Bool)
        → Post
            (λ (r : Pipeline × Memory). r.0.queue ≡ [])
            (if b
              then (write_word memory p.store.word p.store.addr p.store.size >>= λ m. ok (done, m))
              else ok (done, memory))
    go true =
        Post-bind (λ m. Unit {0}) (λ (r : Pipeline × Memory). r.0.queue ≡ [])
          (write_word memory p.store.word p.store.addr p.store.size) (λ m. ok (done, m)) (any _)
          (λ m u. refl)
    go false = refl

committed-Ticked :
    (m : Machine) (r : Result (Pipeline × Memory))
    → Post (λ (x : Pipeline × Memory). x.0.queue ≡ []) r
    → Post (Ticked m) (r >>= λ x. ok (committed (update_stages m) x))
unfolding committed update_stages
committed-Ticked m (ok x) e = record {
  zero_reg = refl;
  ic = refl;
  is_stop = refl;
  clocks = refl;
  config = refl;
  trace = refl;
  empty = e;
}
committed-Ticked m (err x) e = tt

tick-Ticked : (m : Machine) → m.pipeline.queue ≡ [] → Post (Ticked m) (tick m)
unfolding tick update_stages
tick-Ticked m e =
    committed-Ticked m (Pipeline.update m.pipeline m.memory) (commit-empty m.pipeline m.memory e)

-- What a cycle does to the counters, the stop flag and the invariant.
pub record Cycled (m m' : Machine) : Type 0 where
  pub inv : Inv m'
  pub clocks : m'.clocks ≡ u64 (m.clocks + 1)
  pub config : m'.config ≡ m.config
  pub counted : Counted m m'

Counted-later :
    (a b d : Machine)
    → Counted a b
    → d.ic ≡ b.ic
    → d.is_stop ≡ b.is_stop
    → d.trace ≡ b.trace
    → Counted a d
Counted-later a b d (inl (l, x, y, z)) f g h = inl (l, f ∙ x, g ∙ y, h ∙ z)
Counted-later a b d (inr (p, l, e, x, y, z)) f g h = inr (p, l, e, f ∙ x, g ∙ y, h ∙ z)

combine : {a b c d : Machine} → Inv a → Retired a b → Steady b c → Ticked c d → Cycled a d
combine {a} {b} {c} {d} i r s t = record {
  inv = record { zero_reg = t.zero_reg ∙ s.zero_reg ∙ r.zero_reg ∙ i.zero_reg; empty = t.empty };
  clocks = t.clocks ∙ ap (λ (n : ℕ). u64 (n + 1)) (s.clocks ∙ r.clocks);
  counted = Counted-later a b d r.counted (t.ic ∙ s.ic) (t.is_stop ∙ s.is_stop) (t.trace ∙ s.trace);
  config = t.config ∙ s.config ∙ r.config;
}

-- Given a zero register of 0 and an empty store queue, a cycle that returns keeps both and the
-- configuration, and adds one to the clock modulo 2 ^ 64. Where the MW latch is stalled it
-- retires nothing: the instruction count, the stop flag and the trace stay. Otherwise it retires
-- the object in that latch, which adds one to the instruction count modulo 2 ^ 64, raises the
-- stop flag if it is an ECALL and leaves the flag otherwise, and adds the object to the trace if
-- the configuration dumps one.
pub cycle-Cycled :
    (end_id d_data : ℕ) (m : Machine) → Inv m → Post (Cycled m) (cycle end_id d_data m)
cycle-Cycled end_id d_data m i = rw (cycle-parts end_id d_data m) (
    Post-bind (Retired m) (Cycled m) (write_back m) (λ m₁. later end_id d_data m₁ >>= tick)
      (write_back-Retired m)
      (λ m₁ r.
        Post-bind (Steady m₁) (Cycled m) (later end_id d_data m₁) tick
          (later-Steady end_id d_data m₁)
          (λ m₂ s.
            Post-mono (Ticked m₂) (Cycled m) (tick m₂) (tick-Ticked m₂ (s.empty (r.empty i.empty)))
              (λ m₃ t. combine i r s t))))
