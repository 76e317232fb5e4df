-- ===== src/PerfSim/Ecall/Stages.antt =====
-- The branches of the stages, and a pipeline whose front is stopped.
use perf_sim.Base.{
  ℕ, suc, ◌≡◌, refl, Bool, true, false, ◌||◌, Option, some, arith, Result, ◌>>=◌, deref,
  if◌then◌else◌, Post, Post-bind, Post-mono, lt→ltb,
}
use perf_sim.PerfSim.Clock.{any}
use perf_sim.Stage.{is_stop}
use perf_sim.Stage
use perf_sim.Pipeline
use perf_sim.Memory.{Memory}
use perf_sim.Machine.{Machine}
use perf_sim.PerfSim.{decode, fetch, fetched, tick, update_stages, committed, set_de_stall}
use perf_sim.PerfSim.Ecall.Latches.{SameBack}

-- The first branch of a stage runs, or the second.
pub skipped :
    (P : Machine → Type 0) (b d : Bool) (x y : Result Machine)
    → (b || d) ≡ true
    → Post P x
    → Post P (if b || d then x else y)
skipped P b d x y e h = rw e h

pub entered :
    (P : Machine → Type 0) (a b d : Bool) (o : Option ℕ) (p : ℕ) (x : Result Machine)
    (f : ℕ → Result Machine)
    → a ≡ false
    → b ≡ false
    → d ≡ false
    → o ≡ some p
    → Post P (f p)
    → Post P (if (a || b) || d then x else (deref o >>= f))
entered P a b d o p x f ea eb ed eo h = rw (ea, eb, ed, eo) h

pub running : {T : Type 0} (s : Stage.Stage T) → s.stop_count ≡ 0 → is_stop s ≡ false
unfolding is_stop
running s e = rw e refl

pub stopped :
    {T : Type 0} (a : Bool) (s : Stage.Stage T) (n : ℕ)
    → s.stop_count ≡ suc n
    → (a || is_stop s) ≡ true
unfolding is_stop
stopped true s n e = refl
stopped false s n e = rw e (lt→ltb 0 (suc n) (omega arith))

-- `decode` and `fetch` on a stopped pipeline.
decode-stopped :
    (P : Machine → Type 0) (m : Machine) (n : ℕ)
    → m.de_st.stop_count ≡ suc n
    → ((b : Bool) → P (set_de_stall m b))
    → Post P (decode m)
unfolding decode
decode-stopped P m n e k =
    let fd = m.fd_st.load in
    skipped P (fd.is_stall || fd.hazard_stall) (is_stop m.de_st) _ _
      (stopped (fd.is_stall || fd.hazard_stall) m.de_st n e) (k _)

fetch-SameBack : (m : Machine) → Post (SameBack m) (fetch m)
unfolding fetch fetched
fetch-SameBack m = ground arith

-- The rest of a cycle, on a stopped pipeline.
unfoldable pub front : Machine → Result Machine
front m = decode m >>= λ m₄. fetch m₄ >>= tick

pub front-Post :
    (P Q : Machine → Type 0) (n : ℕ) (m : Machine)
    → m.de_st.stop_count ≡ suc n
    → ((b : Bool) → P (set_de_stall m b))
    → ((a b : Machine) → SameBack a b → P a → P b)
    → ((a : Machine) (r : Pipeline.Pipeline × Memory) → P a → Q (committed (update_stages a) r))
    → Post Q (front m)
unfolding front tick
front-Post P Q n m e k f g = Post-bind P Q (decode m) _ (decode-stopped P m n e k) (λ m₄ x.
    Post-bind P Q (fetch m₄) tick
      (Post-mono (SameBack m₄) P (fetch m₄) (fetch-SameBack m₄) (λ m₅ s. f m₄ m₅ s x))
      (λ m₅ y.
        Post-bind (λ r. Unit {0}) Q
          (Pipeline.update (update_stages m₅).pipeline (update_stages m₅).memory) _ (any _)
          (λ r u. g m₅ r y)))
