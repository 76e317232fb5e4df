-- ===== src/PerfSim/Steady/Operands.antt =====
-- What the decoder and the hazard unit keep: src/Decoder.cpp and src/HazardUnit.cpp.
use perf_sim.Base.{ℕ, refl, arith, Result, ok, err, ◌>>=◌, Post, Post-bind, Post-mono}
use perf_sim.Types.{
  PipelineStage, stage_execute, InstrType, RegName, access_write, type_r, type_i, type_s, type_b,
  type_u, type_j,
}
use perf_sim.Instruction.{Register, Instruction}
use perf_sim.RegFile.{get_reg}
use perf_sim.Machine.{Machine, set_instr}
use perf_sim.HazardUnit.{decode_em}
use perf_sim.HazardUnit
use perf_sim.Decoder.{
  operand, destination, next_object, operands, Recognized, finish, second_need, recognize_word,
  field,
}
use perf_sim.Decoder
use perf_sim.PerfSim.Steady.{
  Steady, Steady-refl, Steady-trans, SameZero, get_reg-SameZero, with_rf-Steady, still,
}

hu_decode_em-Steady : (m : Machine) (rs : Register) → Post (λ r. Steady m r.1) (decode_em m rs)
unfolding decode_em
hu_decode_em-Steady m rs = ground arith

hu_decode-Steady :
    (m : Machine) (rs : Register) (s : PipelineStage)
    → Post (λ r. Steady m r.1) (HazardUnit.decode m rs s)
unfolding HazardUnit.decode
hu_decode-Steady m rs s = ground arith

operand-Steady :
    (m : Machine) (num : RegName) (s : PipelineStage) → Post (λ r. Steady m r.1) (operand m num s)
unfolding operand
operand-Steady m num s = ground (arith, Steady-refl m, hu_decode-Steady m (m.rf.regs num) s)

destination-Steady : (m : Machine) (num : RegName) → Post (λ r. Steady m r.1) (destination m num)
unfolding destination
destination-Steady m num =
    Post-bind (λ r. SameZero m.rf r.1) (λ r. Steady m r.1) (get_reg m.rf num access_write)
      (λ r. ok (r.0, record m { rf = r.1 })) (get_reg-SameZero m.rf num)
      (λ r z. with_rf-Steady m r.1 z)

next_object-Steady : (m : Machine) (t : InstrType) → Steady m (next_object m t).1
unfolding next_object
next_object-Steady m type_r = ground arith
next_object-Steady m _ = ground arith

-- A step after a step, each with a value beside the machine.
pub chain :
    {X Y : Type 0} (m : Machine) (r : Result (X × Machine)) (f : X × Machine → Result (Y × Machine))
    → Post (λ x. Steady m x.1) r
    → ((x : X × Machine) → Post (λ y. Steady x.1 y.1) (f x))
    → Post (λ y. Steady m y.1) (r >>= f)
chain m (ok x) f h k = Post-mono _ _ (f x) (k x) (λ y s. Steady-trans h s)
chain m (err e) f h k = tt

operands-Steady :
    (t : InstrType) (m : Machine) (i : Instruction) (r : Recognized) (a b d : RegName)
    → Post (λ x. Steady m x.1) (operands t m i r a b d)
unfolding operands
operands-Steady type_r m i r a b d = chain m _ _ (operand-Steady m a stage_execute) λ x.
    chain x.1 _ _ (operand-Steady x.1 b stage_execute)
      λ y. chain y.1 _ _ (destination-Steady y.1 d) λ z. Steady-refl z.1
operands-Steady type_i m i r a b d =
    chain m _ _ (operand-Steady m a stage_execute)
      λ x. chain x.1 _ _ (destination-Steady x.1 d) λ z. Steady-refl z.1
operands-Steady type_s m i r a b d =
    chain m _ _ (operand-Steady m a stage_execute)
      λ x. chain x.1 _ _ (operand-Steady x.1 b (second_need r)) λ y. Steady-refl y.1
operands-Steady type_b m i r a b d =
    chain m _ _ (operand-Steady m a stage_execute)
      λ x. chain x.1 _ _ (operand-Steady x.1 b stage_execute) λ y. Steady-refl y.1
operands-Steady type_u m i r a b d = chain m _ _ (destination-Steady m d) λ z. Steady-refl z.1
operands-Steady type_j m i r a b d = chain m _ _ (destination-Steady m d) λ z. Steady-refl z.1
operands-Steady _ m i r a b d = Steady-refl m

object_after : ℕ × Machine → Recognized → ℕ → Result (ℕ × Machine)
object_after o r w =
    operands r.type o.1 (o.1.instrs o.0) r (field w 15 0b011111) (field w 20 0b011111)
      (field w 7 0b011111)
    >>= λ x. ok (o.0, set_instr x.1 o.0 (finish x.0 r (field w 0 0b1111111) w))

object_after-Steady :
    (o : ℕ × Machine) (r : Recognized) (w : ℕ) → Post (λ x. Steady o.1 x.1) (object_after o r w)
unfolding object_after
object_after-Steady o r w =
    chain o.1 (operands r.type o.1 (o.1.instrs o.0) r _ _ _)
      (λ x. ok (o.0, set_instr x.1 o.0 (finish x.0 r (field w 0 0b1111111) w)))
      (operands-Steady r.type o.1 _ r _ _ _) (λ x. still x.1 _ refl refl refl refl refl refl refl)

pub decoder-Steady : (m : Machine) (w : ℕ) → Post (λ r. Steady m r.1) (Decoder.decode m w)
unfolding Decoder.decode object_after
decoder-Steady m w =
    let r = recognize_word w in
    Post-mono _ _ (object_after (next_object m r.type) r w)
      (object_after-Steady (next_object m r.type) r w)
      (λ x s. Steady-trans (next_object-Steady m r.type) s)
