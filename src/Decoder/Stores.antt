-- ===== src/Decoder/Stores.antt =====
-- How `Decoder::decode` of src/Decoder.cpp decodes a store behind a load of the register that it stores:
-- with the hazard unit, src/HazardUnit.cpp.
use perf_sim.Base.{
  ℕ, ◌-◌, ◌/◌, ◌%◌, ◌^◌, ◌≤◌, ◌<◌, ◌≡◌, ◌≢◌, refl, ◌∙◌, true, arith, ok, err, load_hazart, lt→ltb,
  ne→==,
}
use perf_sim.Types.{type_s, RegName, PipelineStage, stage_execute, stage_memory}
use perf_sim.Instruction.{Instruction}
use perf_sim.RegFile.{is_lock, get_reg}
use perf_sim.Machine.{Machine}
use perf_sim.HazardUnit.{is_load}
use perf_sim.HazardUnit
use perf_sim.HazardUnit.Operands.{Writes, decode-load}
use perf_sim.Decoder.{
  Recognized, operand, operands, next_object, recognize, recognize_store, recognize_word, field,
  decode, second_need,
}
use perf_sim.Decoder.Fields.{field-eq}

unlocked-operand :
    (m : Machine) (num : RegName) (need : PipelineStage)
    → num < m.rf.num_regs
    → m.rf.reg_locker num ≡ 0
    → operand m num need ≡ ok (m.rf.regs num, m)
unfolding operand is_lock get_reg
unlocked-operand m num need l free = rw (lt→ltb num m.rf.num_regs l, free) refl

locked-operand :
    (m : Machine) (num : RegName) (need : PipelineStage)
    → num < m.rf.num_regs
    → m.rf.reg_locker num ≢ 0
    → operand m num need ≡ HazardUnit.decode m (m.rf.regs num) need
unfolding operand is_lock get_reg
locked-operand m num need l locked =
    rw (lt→ltb num m.rf.num_regs l, ne→== (m.rf.reg_locker num) 0 locked) refl

-- A store asks for the value that it stores on the memory stage.
IsStore : Recognized → Type 0
IsStore r = (r.type ≡ type_s) × (second_need r ≡ stage_memory)

recognize_store-IsStore : (f3 : ℕ) → f3 ≤ 2 → IsStore (recognize_store f3)
unfolding IsStore recognize_store
recognize_store-IsStore f3 l = ground arith

recognize-IsStore : (w op f3 f7 : ℕ) → op ≡ 0x23 → f3 ≤ 2 → IsStore (recognize w op f3 f7)
unfolding recognize
recognize-IsStore w op f3 f7 e l = rw e (recognize_store-IsStore f3 l)

-- A store of the register `b`, behind a load of it that is in the DE latch.
record Blocked (m : Machine) (a b : ℕ) (i : Instruction) : Type 0 where
  first : a < m.rf.num_regs
  second : b < m.rf.num_regs
  unlocked : m.rf.reg_locker a ≡ 0
  locked : m.rf.reg_locker b ≢ 0
  writes : Writes m m.de_st.load (m.rf.regs b).name i
  load : is_load i ≡ true

operands-Blocked :
    (m : Machine) (j i : Instruction) (r : Recognized) (a b d : ℕ)
    → second_need r ≡ stage_memory
    → Blocked m a b i
    → operands type_s m j r a b d ≡ err load_hazart
unfolding operands
operands-Blocked m j i r a b d need h =
    rw
      (
        unlocked-operand m a stage_execute h.first h.unlocked,
        locked-operand m b (second_need r) h.second h.locked,
        need,
        (decode-load m (m.rf.regs b) i h.writes h.load).1,
      )
      refl

next_object-Blocked :
    (m : Machine) (a b : ℕ) (i : Instruction)
    → Blocked m a b i
    → Blocked (next_object m type_s).1 a b i
unfolding next_object
next_object-Blocked m a b i h = record {
  first = h.first;
  second = h.second;
  unlocked = h.unlocked;
  locked = h.locked;
  writes = h.writes;
  load = h.load;
}

decode-Blocked :
    (m : Machine) (w : ℕ) (i : Instruction)
    → IsStore (recognize_word w)
    → Blocked m (field w 15 0b011111) (field w 20 0b011111) i
    → decode m w ≡ err load_hazart
unfolding decode IsStore
decode-Blocked m w i (type, need) h =
    let o = next_object m type_s in
    rw
      (
        type,
        operands-Blocked o.1 (o.1.instrs o.0) i (recognize_word w) (field w 15 0b011111)
            (field w 20 0b011111) (field w 7 0b011111) need (next_object-Blocked m _ _ i h),
      )
      refl

-- On a machine with at least 32 registers, where a load runs in the DE latch that writes the
-- register in bits 20 to 24 of a word for SB, SH or SW, and that register is locked and the one
-- in bits 15 to 19 is not, decoding the word throws load hazart.
pub decode-store_of_load :
    (m : Machine) (w : ℕ) (i : Instruction)
    → w % 2 ^ 7 ≡ 0x23
    → w / 2 ^ 12 % 2 ^ 3 ≤ 2
    → 32 ≤ m.rf.num_regs
    → m.rf.reg_locker (w / 2 ^ 15 % 2 ^ 5) ≡ 0
    → m.rf.reg_locker (w / 2 ^ 20 % 2 ^ 5) ≢ 0
    → Writes m m.de_st.load (m.rf.regs (w / 2 ^ 20 % 2 ^ 5)).name i
    → is_load i ≡ true
    → decode m w ≡ err load_hazart
decode-store_of_load m w i op f3 regs unlocked locked writes load =
    let h : (s : ℕ) → field w s (2 ^ 5 - 1) ≡ w / 2 ^ s % 2 ^ 5 = λ s. field-eq w s 5 in
    let code : field w 0 (2 ^ 7 - 1) ≡ 0x23 = field-eq w 0 7 ∙ omega (arith, op) in
    let kind : field w 12 (2 ^ 3 - 1) ≤ 2 = rw (field-eq w 12 3) f3 in
    let low : (x : ℕ) → x % 2 ^ 5 < m.rf.num_regs = λ x. omega (arith, regs) in
    let blocked : Blocked m (w / 2 ^ 15 % 2 ^ 5) (w / 2 ^ 20 % 2 ^ 5) i = record {
      first = low _;
      second = low _;
      unlocked = unlocked;
      locked = locked;
      writes = writes;
      load = load;
    } in
    decode-Blocked m w i (recognize-IsStore w _ _ _ code kind) (rw (h 15, h 20) blocked)
