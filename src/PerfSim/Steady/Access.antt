-- ===== src/PerfSim/Steady/Access.antt =====
-- What `memoryAccess` of src/PerfSim.cpp keeps.
use perf_sim.Base.{
  ℕ, ◌≡◌, refl, Bool, true, false, not, ◌&&◌, ◌||◌, [], arith, Result, ok, err, ◌>>=◌, Post,
  if◌then◌else◌, Bool-cases, inl, inr,
}
use perf_sim.Types.{access_write, type_s, same_access, same_type}
use perf_sim.Instruction.{Instruction, set_rd_value}
use perf_sim.Stage.{is_stop, Latch}
use perf_sim.Pipeline.{push, Pipeline}
use perf_sim.Machine.{Machine, set_instr}
use perf_sim.PerfSim.{
  memory_access, access_store, direct_store, access_load, set_mw_stall, store_if, load_if, into_mw,
  access_object, loaded_value, is_store_access, is_load_access,
}
use perf_sim.PerfSim.Steady.{
  Steady, Steady-refl, still, then_Steady, from_Steady, unlock_if-Steady, deref-Steady,
}

-- A push into an empty queue leaves it empty.
push-empty :
    (end_id : ℕ) (p : Pipeline) (i : Instruction)
    → p.queue ≡ []
    → Post (λ q. q.queue ≡ []) (push end_id p i)
unfolding push
push-empty end_id p i e = elim (Bool-cases (same_access i.mem_acc_type access_write)) [
  | inl a ↦ elim (Bool-cases (same_type i.type type_s)) [
    | inl t ↦ rw (a, t, e) refl
    | inr t ↦ rw (a, t) tt
  ]
  | inr a ↦ rw a tt
]

pushed-Steady :
    (m : Machine) (r : Result Pipeline)
    → (m.pipeline.queue ≡ [] → Post (λ q. q.queue ≡ []) r)
    → Post (Steady m) (r >>= λ q. ok (record m { pipeline = q }))
pushed-Steady m (err e) k = tt
pushed-Steady m (ok q) k = record {
  zero_reg = refl;
  ic = refl;
  clocks = refl;
  is_stop = refl;
  config = refl;
  trace = refl;
  empty = k;
}

direct_store-Steady : (m : Machine) (i : Instruction) → Post (Steady m) (direct_store m i)
unfolding direct_store
direct_store-Steady m i = ground arith

pub either : {X : Type 0} (P : X → Type 0) (b : Bool) (x y : X) → P x → P y → P (if b then x else y)
either P true x y h k = h
either P false x y h k = k

access_store-Steady :
    (end_id : ℕ) (m : Machine) (i : Instruction) → Post (Steady m) (access_store end_id m i)
unfolding access_store
access_store-Steady end_id m i =
    either (Post (Steady m)) m.config.is_sq
      (push end_id m.pipeline i >>= λ q. ok (record m { pipeline = q })) (direct_store m i)
      (pushed-Steady m (push end_id m.pipeline i) (push-empty end_id m.pipeline i))
      (direct_store-Steady m i)

store_if-Steady :
    (end_id : ℕ) (i : Instruction) (m : Machine) → Post (Steady m) (store_if end_id i m)
unfolding store_if
store_if-Steady end_id i m = elim (Bool-cases (is_store_access i)) [
  | inl b ↦ rw b (access_store-Steady end_id m i)
  | inr b ↦ rw b (Steady-refl m)
]

access_load-Steady :
    (end_id d_data : ℕ) (m : Machine) (p : ℕ) → Post (Steady m) (access_load end_id d_data m p)
unfolding access_load
access_load-Steady end_id d_data m p = go (loaded_value end_id d_data m (m.instrs p))
  where
    put : (r : Result Instruction) → Post (Steady m) (r >>= λ i. ok (set_instr m p i))
    put (ok i) = still m (set_instr m p i) refl refl refl refl refl refl refl
    put (err e) = tt

    go :
        (r : Result ℕ)
        → Post (Steady m) (r >>= λ v. set_rd_value (m.instrs p) v >>= λ i. ok (set_instr m p i))
    go (ok v) = put (set_rd_value (m.instrs p) v)
    go (err e) = tt

load_if-Steady :
    (end_id d_data : ℕ) (i : Instruction) (p : ℕ) (m : Machine)
    → Post (Steady m) (load_if end_id d_data i p m)
unfolding load_if
load_if-Steady end_id d_data i p m = elim (Bool-cases (is_load_access i)) [
  | inl b ↦ rw b (access_load-Steady end_id d_data m p)
  | inr b ↦ rw b (Steady-refl m)
]

access_object-Steady :
    (end_id d_data : ℕ) (em : Latch) (m : Machine) (p : ℕ)
    → Post (Steady m) (access_object end_id d_data em m p)
unfolding access_object
access_object-Steady end_id d_data em m p =
    then_Steady m (store_if end_id (m.instrs p) m)
      (λ m₂. load_if end_id d_data (m.instrs p) p m₂ >>= λ m₃. ok (into_mw em m₃))
      (store_if-Steady end_id (m.instrs p) m)
      (λ m₂.
        then_Steady m₂ (load_if end_id d_data (m.instrs p) p m₂) (λ m₃. ok (into_mw em m₃))
          (load_if-Steady end_id d_data (m.instrs p) p m₂)
          (λ m₃. still m₃ (into_mw em m₃) refl refl refl refl refl refl refl))

pub memory_access-Steady :
    (end_id d_data : ℕ) (m : Machine) → Post (Steady m) (memory_access end_id d_data m)
unfolding memory_access
memory_access-Steady end_id d_data m =
    let em = m.em_st.load in
    let m₁ = set_mw_stall m (em.is_stall || em.hazard_stall) in
    let s = still m m₁ refl refl refl refl refl refl refl in
    elim (Bool-cases ((em.is_stall || em.hazard_stall) || is_stop m.mw_st)) [
      | inl b ↦
          rw b (from_Steady _ s (unlock_if-Steady (not em.is_stall && em.hazard_stall) m₁ em.instr))
      | inr b ↦ rw b (
          from_Steady _ s (
            deref-Steady m₁ em.instr (access_object end_id d_data em m₁)
              (access_object-Steady end_id d_data em m₁)))
    ]
