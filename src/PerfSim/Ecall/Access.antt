-- ===== src/PerfSim/Ecall/Access.antt =====
-- What `memoryAccess` of src/PerfSim.cpp keeps of the later latches and of the objects.
use perf_sim.Base.{
  ℕ, ◌≡◌, ◌≢◌, refl, sym, ap, ◌∙◌, true, false, ◌&&◌, ◌||◌, Option, none, some, arith, Result, ok,
  ◌>>=◌, deref, ◌==◌, Post, Post-bind, Post-mono, Bool-cases, inl, inr, subst, ==→eq,
}
use perf_sim.Types.{access_read, same_access, same_type, type_i}
use perf_sim.Instruction.{Instruction, set_rd_value}
use perf_sim.PerfSim.Clock.{any}
use perf_sim.PerfSim.Steady.Access.{either}
use perf_sim.Stage.{Latch, is_stop}
use perf_sim.Pipeline.{push}
use perf_sim.Machine.{Machine, set_instr}
use perf_sim.PerfSim.{
  is_load_access, is_store_access, access_load, access_store, direct_store, access_object,
  loaded_value, memory_access, store_if, load_if, into_mw, set_mw_stall,
}
use perf_sim.PerfSim.Ecall.Latches.{Back, IsEcall, SameBack, unlock_if-SameBack}

-- What `memoryAccess` keeps.
pub record Accessed (m m' : Machine) : Type 0 where
  pub de_st : m'.de_st ≡ m.de_st
  pub em_st : m'.em_st ≡ m.em_st
  pub mw_stop : m'.mw_st.stop_count ≡ m.mw_st.stop_count
  pub object : (p : ℕ) → IsEcall (m.instrs p) → m'.instrs p ≡ m.instrs p

differ : true ≢ false
differ h = cc

loads_no_ecall : (i : Instruction) → IsEcall i → is_load_access i ≢ true
loads_no_ecall i e h =
    differ (sym h ∙ ap (λ a. same_access access_read a && same_type type_i i.type) e.access)

other_object :
    (m : Machine) (p q : ℕ) (i : Instruction)
    → is_load_access (m.instrs p) ≡ true
    → IsEcall (m.instrs q)
    → (set_instr m p i).instrs q ≡ m.instrs q
other_object m p q i h e = elim (Bool-cases (q == p)) [
  | inl s ↦ absurd (
      loads_no_ecall (m.instrs q) e
        (subst (λ x. is_load_access (m.instrs x) ≡ true) (sym (==→eq q p s)) h))
  | inr n ↦ rw n refl
]

access_load-Accessed :
    (end_id d_data : ℕ) (m : Machine) (p : ℕ)
    → is_load_access (m.instrs p) ≡ true
    → Post (Accessed m) (access_load end_id d_data m p)
unfolding access_load
access_load-Accessed end_id d_data m p h =
    Post-bind (λ v. Unit {0}) (Accessed m) (loaded_value end_id d_data m (m.instrs p)) _ (any _)
      (λ v u.
        Post-bind (λ i. Unit {0}) (Accessed m) (set_rd_value (m.instrs p) v) _ (any _)
          (λ i w. record {
            de_st = refl;
            em_st = refl;
            mw_stop = refl;
            object = λ q e. other_object m p q i h e;
          }))

SameBack-Accessed : {m a : Machine} → SameBack m a → Accessed m a
SameBack-Accessed s = record {
  de_st = ap (λ (b : Back). b.0.0) s;
  em_st = ap (λ (b : Back). b.0.1) s;
  mw_stop = ap (λ (b : Back). b.1.0.stop_count) s;
  object = λ q e. ap (λ (b : Back). b.1.1 q) s;
}

direct_store-SameBack : (m : Machine) (i : Instruction) → Post (SameBack m) (direct_store m i)
unfolding direct_store
direct_store-SameBack m i = ground arith

store_if-SameBack :
    (end_id : ℕ) (i : Instruction) (m : Machine) → Post (SameBack m) (store_if end_id i m)
unfolding store_if access_store
store_if-SameBack end_id i m =
    either (Post (SameBack m)) (is_store_access i) _ (ok m)
      (either (Post (SameBack m)) m.config.is_sq _ (direct_store m i)
        (Post-bind (λ q. Unit {0}) (SameBack m) (push end_id m.pipeline i) _ (any _) (λ q u. refl))
        (direct_store-SameBack m i))
      refl

load_if-Accessed :
    (end_id d_data : ℕ) (i : Instruction) (p : ℕ) (m : Machine)
    → i ≡ m.instrs p
    → Post (Accessed m) (load_if end_id d_data i p m)
unfolding load_if
load_if-Accessed end_id d_data i p m e = elim (Bool-cases (is_load_access i)) [
  | inl b ↦ rw b (access_load-Accessed end_id d_data m p (subst (λ x. is_load_access x ≡ true) e b))
  | inr b ↦ rw b (SameBack-Accessed refl)
]

-- Two steps in a row.
Accessed-trans : {a b d : Machine} → Accessed a b → Accessed b d → Accessed a d
Accessed-trans {a} {b} {d} x y = record {
  de_st = y.de_st ∙ x.de_st;
  em_st = y.em_st ∙ x.em_st;
  mw_stop = y.mw_stop ∙ x.mw_stop;
  object = λ q e. y.object q (subst IsEcall (sym (x.object q e)) e) ∙ x.object q e;
}

into_mw-Accessed : (em : Latch) (m : Machine) → Accessed m (into_mw em m)
unfolding into_mw
into_mw-Accessed em m = record { de_st = refl; em_st = refl; mw_stop = refl; object = λ q e. refl }

access_object-Accessed :
    (end_id d_data : ℕ) (em : Latch) (m : Machine) (p : ℕ)
    → Post (Accessed m) (access_object end_id d_data em m p)
unfolding access_object
access_object-Accessed end_id d_data em m p =
    Post-bind (SameBack m) (Accessed m) (store_if end_id (m.instrs p) m) _
      (store_if-SameBack end_id (m.instrs p) m)
      (λ m₂ s.
        Post-bind (Accessed m₂) (Accessed m) (load_if end_id d_data (m.instrs p) p m₂) _
          (load_if-Accessed end_id d_data (m.instrs p) p m₂ (sym (ap (λ (b : Back). b.1.1 p) s)))
          (λ m₃ l.
            Accessed-trans (SameBack-Accessed s) (Accessed-trans l (into_mw-Accessed em m₃))))

deref-Post :
    (P : Machine → Type 0) (o : Option ℕ) (f : ℕ → Result Machine)
    → ((p : ℕ) → Post P (f p))
    → Post P (deref o >>= f)
deref-Post P none f k = tt
deref-Post P (some p) f k = k p

pub memory_access-Accessed :
    (end_id d_data : ℕ) (m : Machine) → Post (Accessed m) (memory_access end_id d_data m)
unfolding memory_access
memory_access-Accessed end_id d_data m =
    let em = m.em_st.load in
    let m₁ = set_mw_stall m (em.is_stall || em.hazard_stall) in
    let s : Accessed m m₁ = record {
      de_st = refl;
      em_st = refl;
      mw_stop = refl;
      object = λ q e. refl;
    } in
    either (Post (Accessed m)) ((em.is_stall || em.hazard_stall) || is_stop m.mw_st) _ _
      (Post-mono (SameBack m₁) (Accessed m) _ (unlock_if-SameBack _ m₁ em.instr)
        (λ a t. Accessed-trans s (SameBack-Accessed t)))
      (Post-mono (Accessed m₁) (Accessed m) _
        (deref-Post (Accessed m₁) em.instr _ (access_object-Accessed end_id d_data em m₁))
        (λ a t. Accessed-trans s t))
