-- ===== src/PerfSim/Steady/Front.antt =====
-- What `fetch`, `decode` and `execute` of src/PerfSim.cpp keep.
use perf_sim.Base.{
  ℕ, refl, not, ◌&&◌, ◌||◌, some, arith, Result, ok, err, ◌>>=◌, Post, Post-mono, Bool-cases, inl,
  inr,
}
use perf_sim.Instruction.{Instruction}
use perf_sim.Executors
use perf_sim.Stage.{is_stop, Latch}
use perf_sim.Machine.{Machine, set_instr}
use perf_sim.HazardUnit.{branch, exit}
use perf_sim.Decoder
use perf_sim.PerfSim.{
  fetch, decode, execute, latch_decoded, unlock_if, with_pc, into_de, set_de_stall, set_em_stall,
  jump_if, exit_if, into_em, execute_object,
}
use perf_sim.PerfSim.Steady.{
  Steady, Steady-trans, still, then_Steady, from_Steady, unlock_if-Steady, deref-Steady,
}
use perf_sim.PerfSim.Steady.Operands.{decoder-Steady}

pub fetch-Steady : (m : Machine) → Post (Steady m) (fetch m)
unfolding fetch
fetch-Steady m = ground arith

latch_decoded-Steady : (pc : ℕ) (r : ℕ × Machine) → Post (Steady r.1) (latch_decoded pc r)
unfolding latch_decoded
latch_decoded-Steady pc (p, m) =
    from_Steady _ (still m (with_pc pc (p, m)) refl refl refl refl refl refl refl) (
      then_Steady (with_pc pc (p, m)) (unlock_if (is_stop m.de_st) (with_pc pc (p, m)) (some p))
        (λ x. ok (into_de pc p x)) (unlock_if-Steady (is_stop m.de_st) (with_pc pc (p, m)) (some p))
        (λ x. still x (into_de pc p x) refl refl refl refl refl refl refl))

chain_end :
    {X : Type 0} (m : Machine) (r : Result (X × Machine)) (f : X × Machine → Result Machine)
    → Post (λ x. Steady m x.1) r
    → ((x : X × Machine) → Post (Steady x.1) (f x))
    → Post (Steady m) (r >>= f)
chain_end m (ok x) f h k = Post-mono _ _ (f x) (k x) (λ y s. Steady-trans h s)
chain_end m (err e) f h k = tt

pub decode-Steady : (m : Machine) → Post (Steady m) (decode m)
unfolding decode
decode-Steady m =
    let fd = m.fd_st.load in
    let m₁ = set_de_stall m (fd.is_stall || fd.hazard_stall) in
    let s = still m m₁ refl refl refl refl refl refl refl in
    elim (Bool-cases ((fd.is_stall || fd.hazard_stall) || is_stop m.de_st)) [
      | inl b ↦ rw b s
      | inr b ↦ rw b (
          from_Steady _ s (
            chain_end m₁ (Decoder.decode m₁ fd.instr) (latch_decoded fd.pc)
              (decoder-Steady m₁ fd.instr) (latch_decoded-Steady fd.pc)))
    ]

jump_if-Steady : (p : ℕ) (i : Instruction) (m : Machine) → Post (Steady m) (jump_if p i m)
unfolding jump_if branch
jump_if-Steady p i m = ground arith

exit_if-Steady : (p : ℕ) (i : Instruction) (m : Machine) → Steady m (exit_if p i m)
unfolding exit_if exit
exit_if-Steady p i m = ground arith

after_jump : Latch → ℕ → Instruction → Machine → Machine
after_jump de p i m = into_em de (exit_if p i m)

after_jump-Steady :
    (de : Latch) (p : ℕ) (i : Instruction) (m : Machine) → Steady m (after_jump de p i m)
unfolding after_jump into_em
after_jump-Steady de p i m =
    Steady-trans (exit_if-Steady p i m) (still (exit_if p i m) _ refl refl refl refl refl refl refl)

executed-Steady :
    (de : Latch) (m : Machine) (p : ℕ) (r : Result Instruction)
    → Post
        (Steady m)
        (r >>= λ i. jump_if p i (set_instr m p i) >>= λ m₃. ok (into_em de (exit_if p i m₃)))
unfolding after_jump
executed-Steady de m p (err e) = tt
executed-Steady de m p (ok i) =
    from_Steady _ (still m (set_instr m p i) refl refl refl refl refl refl refl) (
      then_Steady (set_instr m p i) (jump_if p i (set_instr m p i))
        (λ m₃. ok (into_em de (exit_if p i m₃))) (jump_if-Steady p i (set_instr m p i))
        (after_jump-Steady de p i))

execute_object-Steady : (de : Latch) (m : Machine) (p : ℕ) → Post (Steady m) (execute_object de m p)
unfolding execute_object
execute_object-Steady de m p = executed-Steady de m p (Executors.execute (m.instrs p))

pub execute-Steady : (m : Machine) → Post (Steady m) (execute m)
unfolding execute
execute-Steady m =
    let de = m.de_st.load in
    let m₁ = set_em_stall m (de.is_stall || de.hazard_stall) in
    let s = still m m₁ refl refl refl refl refl refl refl in
    elim (Bool-cases ((de.is_stall || de.hazard_stall) || is_stop m.em_st)) [
      | inl b ↦
          rw b (from_Steady _ s (unlock_if-Steady (not de.is_stall && de.hazard_stall) m₁ de.instr))
      | inr b ↦ rw b (
          from_Steady _ s
            (deref-Steady m₁ de.instr (execute_object de m₁) (execute_object-Steady de m₁)))
    ]
