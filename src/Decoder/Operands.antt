-- ===== src/Decoder/Operands.antt =====
-- The registers that `Decoder::decode` of src/Decoder.cpp reads and claims for an instruction word, where
-- no register is locked.
use perf_sim.Base.{
  ℕ, ◌-◌, ◌/◌, ◌%◌, ◌^◌, ◌≤◌, ◌<◌, ◌≡◌, refl, sym, ap, ◌∙◌, subst, arith, Result, ok, ◌>>=◌,
  ==_self, if◌then◌else◌, ◌==◌, lt→ltb, not, ◌&&◌,
}
use perf_sim.Types.{RegName, InstrType, type_u, PipelineStage, stage_execute}
use perf_sim.Instruction.{Instruction, has_rd}
use perf_sim.RegFile.{RegFile, get_reg, is_lock}
use perf_sim.RegFile.Laws.{claim}
use perf_sim.Machine.{Machine, set_instr}
use perf_sim.Decoder.{
  Recognized, operand, destination, operands, next_object, finish, recognize_word, field, decode,
  second_need,
}
use perf_sim.Decoder.Fields.{field-eq}

-- The registers of the word can be read, and none of them is locked.
pub record IsFree (rf : RegFile) : Type 0 where
  pub enough : 32 ≤ rf.num_regs
  pub unlocked : (j : ℕ) → j < 32 → rf.reg_locker j ≡ 0

-- The register file after the register that an instruction of this type writes has been claimed.
abbrev pub claimed : InstrType → RegFile → ℕ → RegFile
claimed t rf d = if has_rd t && not (d == 0) then claim rf d else rf

-- The operands of an object are those that the file has under the numbers `a`, `b` and `d`.
abbrev pub Reads : InstrType → RegFile → ℕ → ℕ → ℕ → Instruction → Type 0
Reads InstrType.type_r rf a b d i = (i.rs1 ≡ rf.regs a) × (i.rs2 ≡ rf.regs b) × (i.rd ≡ rf.regs d)
Reads InstrType.type_i rf a b d i = (i.rs1 ≡ rf.regs a) × (i.rd ≡ rf.regs d)
Reads InstrType.type_s rf a b d i = (i.rs1 ≡ rf.regs a) × (i.rs2 ≡ rf.regs b)
Reads InstrType.type_b rf a b d i = (i.rs1 ≡ rf.regs a) × (i.rs2 ≡ rf.regs b)
Reads InstrType.type_u rf a b d i = i.rd ≡ rf.regs d
Reads InstrType.type_j rf a b d i = i.rd ≡ rf.regs d
Reads _ rf a b d i = Unit

operand-IsFree :
    (m : Machine) (num : RegName) (need : PipelineStage)
    → IsFree m.rf
    → num < 32
    → operand m num need ≡ ok (m.rf.regs num, m)
unfolding operand is_lock get_reg
operand-IsFree m num need f l =
    let small : num < m.rf.num_regs = omega (arith, f.enough) in
    rw (lt→ltb num m.rf.num_regs small, f.unlocked num l) refl

destination-IsFree :
    (m : Machine) (num : RegName)
    → IsFree m.rf
    → num < 32
    → destination m num ≡ ok (m.rf.regs num, record m { rf = claimed type_u m.rf num })
unfolding destination get_reg
destination-IsFree m num f l =
    let small : num < m.rf.num_regs = omega (arith, f.enough) in
    rw (lt→ltb num m.rf.num_regs small) refl

Obtained : InstrType → Machine → Instruction → Recognized → ℕ → ℕ → ℕ → Type 0
Obtained t m i r a b d =
    (i' : Instruction) × (m' : Machine) × (operands t m i r a b d ≡ ok (i', m'))
    × Reads t m.rf a b d i'
    × (m'.rf ≡ claimed t m.rf d)

operands-IsFree :
    (t : InstrType) (m : Machine) (i : Instruction) (r : Recognized) (a b d : ℕ)
    → IsFree m.rf
    → a < 32
    → b < 32
    → d < 32
    → Obtained t m i r a b d
unfolding Obtained operands
operands-IsFree InstrType.type_r m i r a b d f la lb ld =
    rw
      (
        operand-IsFree m a stage_execute f la,
        operand-IsFree m b stage_execute f lb,
        destination-IsFree m d f ld,
      )
      (_, _, refl, (refl, refl, refl), refl)
operands-IsFree InstrType.type_i m i r a b d f la lb ld =
    rw (operand-IsFree m a stage_execute f la, destination-IsFree m d f ld)
      (_, _, refl, (refl, refl), refl)
operands-IsFree InstrType.type_s m i r a b d f la lb ld =
    rw (operand-IsFree m a stage_execute f la, operand-IsFree m b (second_need r) f lb)
      (_, _, refl, (refl, refl), refl)
operands-IsFree InstrType.type_b m i r a b d f la lb ld =
    rw (operand-IsFree m a stage_execute f la, operand-IsFree m b stage_execute f lb)
      (_, _, refl, (refl, refl), refl)
operands-IsFree InstrType.type_u m i r a b d f la lb ld =
    rw (destination-IsFree m d f ld) (_, _, refl, refl, refl)
operands-IsFree InstrType.type_j m i r a b d f la lb ld =
    rw (destination-IsFree m d f ld) (_, _, refl, refl, refl)
operands-IsFree InstrType.type_system m i r a b d f la lb ld = (i, m, refl, tt, refl)
operands-IsFree _ m i r a b d f la lb ld = (i, m, refl, tt, refl)

next_object-rf : (m : Machine) (t : InstrType) → (next_object m t).1.rf ≡ m.rf
unfolding next_object
next_object-rf m InstrType.type_r = refl
next_object-rf m _ = refl

-- The end of `decode` leaves the operands.
Reads-finish :
    (t : InstrType) (rf : RegFile) (a b d : ℕ) (i : Instruction) (r : Recognized) (op w : ℕ)
    → Reads t rf a b d i
    → Reads t rf a b d (finish i r op w)
unfolding finish
Reads-finish InstrType.type_r rf a b d i r op w h = h
Reads-finish _ rf a b d i r op w h = h

-- The fields that `decode` cuts out of the word.
abbrev rs1_field : ℕ → ℕ
rs1_field w = field w 15 0b011111

abbrev rs2_field : ℕ → ℕ
rs2_field w = field w 20 0b011111

abbrev rd_field : ℕ → ℕ
rd_field w = field w 7 0b011111

Decoded : Machine → ℕ → ℕ → ℕ → ℕ → Type 0
Decoded m w a b d =
    (p : ℕ) × (m' : Machine) × (decode m w ≡ ok (p, m'))
    × Reads (m'.instrs p).type m.rf a b d (m'.instrs p)
    × (m'.rf ≡ claimed (m'.instrs p).type m.rf d)

-- The end of `decode`.
unfoldable pub stored : ℕ → Recognized → ℕ → Instruction × Machine → Result (ℕ × Machine)
stored q r w y = ok (q, set_instr y.1 q (finish y.0 r (field w 0 0b1111111) w))

fields-IsFree :
    (m : Machine) (w : ℕ)
    → IsFree m.rf
    → rs1_field w < 32
    → rs2_field w < 32
    → rd_field w < 32
    → Decoded m w (rs1_field w) (rs2_field w) (rd_field w)
unfolding Decoded decode finish Obtained stored
fields-IsFree m w f la lb ld =
    let r = recognize_word w in
    let o = next_object m r.type in
    let same = next_object-rf m r.type in
    let (i, m', e, reads, rf) =
      operands-IsFree r.type o.1 (o.1.instrs o.0) r (rs1_field w) (rs2_field w) (rd_field w)
        (subst IsFree (sym same) f) la lb ld in
    let done = finish i r (field w 0 0b1111111) w in
    (
      o.0,
      set_instr m' o.0 done,
      ap (λ x. x >>= stored o.0 r w) e,
      rw (==_self o.0) (
          Reads-finish r.type m.rf (rs1_field w) (rs2_field w) (rd_field w) i r _ w
            (subst (λ x. Reads r.type x (rs1_field w) (rs2_field w) (rd_field w) i) same reads)),
      rw (==_self o.0) (rf ∙ ap (λ x. claimed r.type x (rd_field w)) same),
    )

-- On a machine with at least 32 registers, the first 32 of them unlocked, every word decodes. The
-- operands of the object that its type has are the registers with the numbers in bits 15 to 19,
-- 20 to 24 and 7 to 11 of the word, for rs1, rs2 and rd, and the register file is the old one in
-- which rd is claimed, if the type writes one and it is not the zero register.
pub decode-IsFree :
    (m : Machine) (w : ℕ)
    → IsFree m.rf
    → let a = w / 2 ^ 15 % 2 ^ 5 in
      let b = w / 2 ^ 20 % 2 ^ 5 in
      let d = w / 2 ^ 7 % 2 ^ 5 in
      (p : ℕ) × (m' : Machine) × (decode m w ≡ ok (p, m'))
      × Reads (m'.instrs p).type m.rf a b d (m'.instrs p)
      × (m'.rf ≡ claimed (m'.instrs p).type m.rf d)
unfolding Decoded
decode-IsFree m w f =
    let h : (s : ℕ) → field w s (2 ^ 5 - 1) ≡ w / 2 ^ s % 2 ^ 5 = λ s. field-eq w s 5 in
    let low : (x : ℕ) → x % 2 ^ 5 < 32 = λ x. omega arith in
    rw⁻¹ (h 15, h 20, h 7)
      (fields-IsFree m w f (rw (h 15) (low _)) (rw (h 20) (low _)) (rw (h 7) (low _)))
