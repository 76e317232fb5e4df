-- ===== src/Decoder/Decoded.antt =====
-- The object that `Decoder::decode` of src/Decoder.cpp gives for an instruction word.
use perf_sim.Base.{
  ℕ, ◌<◌, ◌≡◌, ◌≢◌, ◌↔◌, ◌-◌, err, ◌>>=◌, refl, sym, ◌∙◌, subst, Bool, true, false, Option, some,
  none, arith, ◌⊎◌, ok,
}
use perf_sim.Types.{InstrType, InstrName, no_name}
use perf_sim.Instruction.{Instruction, Executor}
use perf_sim.Executors.{execute, execute_pointer}
use perf_sim.Executors.Frame.{class_of, sets_target, shifts_by_register, run_executor_total}
use perf_sim.Decoder.{
  Recognized, recognize, recognize_branch, recognize_load, recognize_store, recognize_imm,
  recognize_reg, finish, recognize_word, field,
}
use perf_sim.Base.{◌%◌, ◌/◌, ◌^◌, ap, ==_self, Result}
use perf_sim.Machine.{Machine, set_instr}
use perf_sim.Decoder.{decode, next_object, operands}
use perf_sim.Decoder.Fields.{field-eq}
use perf_sim.Decoder.Operands.{stored}
use perf_sim.Decoder.Table.{Encodes, IsMissing, Misread, recognize_iff}

completed :
    (x : Result (Instruction × Machine)) (q p w : ℕ) (r : Recognized) (m' : Machine)
    → (x >>= stored q r w) ≡ ok (p, m')
    → (i : Instruction) × (m'.instrs p ≡ finish i r (field w 0 0b1111111) w)
unfolding stored
completed (err e) q p w r m' h = cc
completed (ok (i, m)) q p w r m' h =
    let f = finish i r (field w 0 0b1111111) w in
    let same : q ≡ p = cc in
    let after : set_instr m q f ≡ m' = cc in
    (i, sym (ap (λ (x : Machine). x.instrs p) after) ∙ rw (same, ==_self p) refl)

-- What `decode` returns is an object that `finish` has completed.
decode-finish :
    (m m' : Machine) (w p : ℕ)
    → decode m w ≡ ok (p, m')
    → (i : Instruction) × (m'.instrs p ≡ finish i (recognize_word w) (field w 0 0b1111111) w)
unfolding decode stored
decode-finish m m' w p h =
    let r = recognize_word w in
    let o = next_object m r.type in
    completed
      (operands r.type o.1 (o.1.instrs o.0) r (field w 15 0b011111) (field w 20 0b011111)
        (field w 7 0b011111))
      o.0 p w r m' h

opcode_bits : (w : ℕ) → field w 0 (2 ^ 7 - 1) ≡ w % 2 ^ 7
opcode_bits w = field-eq w 0 7 ∙ omega arith

-- The fields are ranges of bits.
named_by_bits :
    (n : InstrName) (w : ℕ)
    → n ≢ no_name
    → ((recognize_word w).name ≡ n) ↔ (
        (Encodes n w (w % 2 ^ 7) (w / 2 ^ 12 % 2 ^ 3) (w / 2 ^ 25 % 2 ^ 7) × ¬ IsMissing n)
        ⊎ Misread n (w % 2 ^ 7) (w / 2 ^ 12 % 2 ^ 3) (w / 2 ^ 25 % 2 ^ 7))
named_by_bits n w known =
    rw (opcode_bits w, field-eq w 12 3, field-eq w 25 7) (recognize_iff n w _ _ _ known)

-- Where decode returns for a word, the object has a name other than NONE exactly where the word
-- is one of this name in the RV32I table and the name is not one that the decoder leaves out
-- (FENCE, FENCE.I, EBREAK and the CSR instructions), or the name is JALR and the word has its
-- opcode with another funct3 than 0, or the name is SLLI and the word has its opcode and funct3
-- with another funct7 than 0.
pub decoded_name :
    (m m' : Machine) (n : InstrName) (w p : ℕ)
    → n ≢ no_name
    → decode m w ≡ ok (p, m')
    → let op = w % 2 ^ 7 in
      let f3 = w / 2 ^ 12 % 2 ^ 3 in
      let f7 = w / 2 ^ 25 % 2 ^ 7 in
      ((m'.instrs p).name ≡ n) ↔ ((Encodes n w op f3 f7 × ¬ IsMissing n) ⊎ Misread n op f3 f7)
unfolding finish
decoded_name m m' n w p known h =
    let (i, e) = decode-finish m m' w p h in
    let named = ap (λ (x : Instruction). x.name) e in
    let (there, back) = named_by_bits n w known in (λ a. there (sym named ∙ a), λ b. named ∙ back b)

-- The type and the branch flag fit the executor that is called with them.
abbrev Fits : Option Executor → InstrType → Bool → Type 0
Fits none t b = Unit
Fits (some e) t b = (t ≡ class_of e) × (sets_target e ≡ true → b ≡ true)

abbrev AllFit : Recognized → Type 0
AllFit r = Fits r.executor r.type r.is_branch

branch-fit : (f3 : ℕ) → AllFit (recognize_branch f3)
unfolding recognize_branch
branch-fit f3 = ground arith

load-fit : (f3 : ℕ) → AllFit (recognize_load f3)
unfolding recognize_load
load-fit f3 = ground arith

store-fit : (f3 : ℕ) → AllFit (recognize_store f3)
unfolding recognize_store
store-fit f3 = ground arith

imm-fit : (f3 f7 : ℕ) → AllFit (recognize_imm f3 f7)
unfolding recognize_imm
imm-fit f3 f7 = ground arith

reg-fit : (f3 f7 : ℕ) → AllFit (recognize_reg f3 f7)
unfolding recognize_reg
reg-fit f3 f7 = ground arith

recognize-fit : (w op f3 f7 : ℕ) → AllFit (recognize w op f3 f7)
unfolding recognize
recognize-fit w op f3 f7 = ground arith

-- SLL, SRL or SRA.
abbrev pub shifts : Option Executor → Bool
shifts none = false
shifts (some e) = shifts_by_register e

executes :
    (o : Option Executor) (i : Instruction)
    → Fits o i.type i.is_branch
    → (shifts o ≡ true → i.rs2.value < 32)
    → (j : Instruction) × (execute_pointer o i ≡ ok j)
unfolding execute_pointer
executes none i f s = (i, refl)
executes (some e) i f s = run_executor_total e i f.0 f.1 s

-- Where decode returns for a word, valid or not, the object that it leaves at the number returned
-- executes without an error, if for SLL, SRL and SRA its second operand is below 32.
pub decoded_executes :
    (m m' : Machine) (w p : ℕ)
    → decode m w ≡ ok (p, m')
    → (shifts (m'.instrs p).main_executor ≡ true → (m'.instrs p).rs2.value < 32)
    → (j : Instruction) × (execute (m'.instrs p) ≡ ok j)
unfolding execute finish
decoded_executes m m' w p h s =
    let (i, e) = decode-finish m m' w p h in
    let fits : Fits (m'.instrs p).main_executor (m'.instrs p).type (m'.instrs p).is_branch =
      subst (λ (x : Instruction). Fits x.main_executor x.type x.is_branch) (sym e)
        (recognize-fit w (field w 0 0b1111111) (field w 12 0b0111) (field w 25 0b01111111)) in
    executes (m'.instrs p).main_executor (m'.instrs p) fits s
