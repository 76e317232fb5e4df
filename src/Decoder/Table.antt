-- ===== src/Decoder/Table.antt =====
-- `recognize` against the table of the RV32I base instruction set.
use perf_sim.Base.{ℕ, ◌≡◌, ◌≢◌, ◌↔◌, sym, ◌∙◌, subst, arith, ◌⊎◌, inl, inr}
use perf_sim.Types.{InstrName, no_name}
use perf_sim.Decoder.{
  recognize, recognize_branch, recognize_load, recognize_store, recognize_imm, recognize_reg,
}

-- The RV32I instruction set: the words of a name, by opcode, funct3 and funct7.
abbrev pub Encodes : InstrName → ℕ → ℕ → ℕ → ℕ → Type 0
Encodes InstrName.lui w op f3 f7 = op ≡ 0x37
Encodes InstrName.auipc w op f3 f7 = op ≡ 0x17
Encodes InstrName.jal w op f3 f7 = op ≡ 0x6f
Encodes InstrName.jalr w op f3 f7 = (op ≡ 0x67) × (f3 ≡ 0)
Encodes InstrName.beq w op f3 f7 = (op ≡ 0x63) × (f3 ≡ 0)
Encodes InstrName.bne w op f3 f7 = (op ≡ 0x63) × (f3 ≡ 1)
Encodes InstrName.blt w op f3 f7 = (op ≡ 0x63) × (f3 ≡ 4)
Encodes InstrName.bge w op f3 f7 = (op ≡ 0x63) × (f3 ≡ 5)
Encodes InstrName.bltu w op f3 f7 = (op ≡ 0x63) × (f3 ≡ 6)
Encodes InstrName.bgeu w op f3 f7 = (op ≡ 0x63) × (f3 ≡ 7)
Encodes InstrName.lb w op f3 f7 = (op ≡ 0x03) × (f3 ≡ 0)
Encodes InstrName.lh w op f3 f7 = (op ≡ 0x03) × (f3 ≡ 1)
Encodes InstrName.lw w op f3 f7 = (op ≡ 0x03) × (f3 ≡ 2)
Encodes InstrName.lbu w op f3 f7 = (op ≡ 0x03) × (f3 ≡ 4)
Encodes InstrName.lhu w op f3 f7 = (op ≡ 0x03) × (f3 ≡ 5)
Encodes InstrName.sb w op f3 f7 = (op ≡ 0x23) × (f3 ≡ 0)
Encodes InstrName.sh w op f3 f7 = (op ≡ 0x23) × (f3 ≡ 1)
Encodes InstrName.sw w op f3 f7 = (op ≡ 0x23) × (f3 ≡ 2)
Encodes InstrName.addi w op f3 f7 = (op ≡ 0x13) × (f3 ≡ 0)
Encodes InstrName.slti w op f3 f7 = (op ≡ 0x13) × (f3 ≡ 2)
Encodes InstrName.sltiu w op f3 f7 = (op ≡ 0x13) × (f3 ≡ 3)
Encodes InstrName.xori w op f3 f7 = (op ≡ 0x13) × (f3 ≡ 4)
Encodes InstrName.ori w op f3 f7 = (op ≡ 0x13) × (f3 ≡ 6)
Encodes InstrName.andi w op f3 f7 = (op ≡ 0x13) × (f3 ≡ 7)
Encodes InstrName.slli w op f3 f7 = (op ≡ 0x13) × (f3 ≡ 1) × (f7 ≡ 0)
Encodes InstrName.srli w op f3 f7 = (op ≡ 0x13) × (f3 ≡ 5) × (f7 ≡ 0)
Encodes InstrName.srai w op f3 f7 = (op ≡ 0x13) × (f3 ≡ 5) × (f7 ≡ 0x20)
Encodes InstrName.add w op f3 f7 = (op ≡ 0x33) × (f3 ≡ 0) × (f7 ≡ 0)
Encodes InstrName.sub w op f3 f7 = (op ≡ 0x33) × (f3 ≡ 0) × (f7 ≡ 0x20)
Encodes InstrName.sll w op f3 f7 = (op ≡ 0x33) × (f3 ≡ 1) × (f7 ≡ 0)
Encodes InstrName.slt w op f3 f7 = (op ≡ 0x33) × (f3 ≡ 2) × (f7 ≡ 0)
Encodes InstrName.sltu w op f3 f7 = (op ≡ 0x33) × (f3 ≡ 3) × (f7 ≡ 0)
Encodes InstrName.xor w op f3 f7 = (op ≡ 0x33) × (f3 ≡ 4) × (f7 ≡ 0)
Encodes InstrName.srl w op f3 f7 = (op ≡ 0x33) × (f3 ≡ 5) × (f7 ≡ 0)
Encodes InstrName.sra w op f3 f7 = (op ≡ 0x33) × (f3 ≡ 5) × (f7 ≡ 0x20)
Encodes InstrName.or w op f3 f7 = (op ≡ 0x33) × (f3 ≡ 6) × (f7 ≡ 0)
Encodes InstrName.and w op f3 f7 = (op ≡ 0x33) × (f3 ≡ 7) × (f7 ≡ 0)
Encodes InstrName.ecall w op f3 f7 = (op ≡ 0x73) × (w ≡ 0x73)
Encodes InstrName.ebreak w op f3 f7 = (op ≡ 0x73) × (w ≡ 0x100073)
Encodes InstrName.fence w op f3 f7 = (op ≡ 0x0f) × (f3 ≡ 0)
Encodes InstrName.fence_i w op f3 f7 = (op ≡ 0x0f) × (f3 ≡ 1)
Encodes InstrName.csrrw w op f3 f7 = (op ≡ 0x73) × (f3 ≡ 1)
Encodes InstrName.csrrs w op f3 f7 = (op ≡ 0x73) × (f3 ≡ 2)
Encodes InstrName.csrrc w op f3 f7 = (op ≡ 0x73) × (f3 ≡ 3)
Encodes InstrName.csrrwi w op f3 f7 = (op ≡ 0x73) × (f3 ≡ 5)
Encodes InstrName.csrrsi w op f3 f7 = (op ≡ 0x73) × (f3 ≡ 6)
Encodes InstrName.csrrci w op f3 f7 = (op ≡ 0x73) × (f3 ≡ 7)
Encodes InstrName.no_name w op f3 f7 = ⊥

-- The instructions of the set that the decoder leaves out.
abbrev pub IsMissing : InstrName → Type 0
IsMissing InstrName.ebreak = Unit
IsMissing InstrName.fence = Unit
IsMissing InstrName.fence_i = Unit
IsMissing InstrName.csrrw = Unit
IsMissing InstrName.csrrs = Unit
IsMissing InstrName.csrrc = Unit
IsMissing InstrName.csrrwi = Unit
IsMissing InstrName.csrrsi = Unit
IsMissing InstrName.csrrci = Unit
IsMissing _ = ⊥

-- The words outside of the set that the decoder takes for one of its instructions.
abbrev pub Misread : InstrName → ℕ → ℕ → ℕ → Type 0
Misread InstrName.jalr op f3 f7 = (op ≡ 0x67) × (f3 ≢ 0)
Misread InstrName.slli op f3 f7 = (op ≡ 0x13) × (f3 ≡ 1) × (f7 ≢ 0)
Misread _ op f3 f7 = ⊥

-- What the switches of the decoder test.
abbrev Accepts : InstrName → ℕ → ℕ → ℕ → ℕ → Type 0
Accepts InstrName.lui w op f3 f7 = op ≡ 0x37
Accepts InstrName.auipc w op f3 f7 = op ≡ 0x17
Accepts InstrName.jal w op f3 f7 = op ≡ 0x6f
Accepts InstrName.jalr w op f3 f7 = op ≡ 0x67
Accepts InstrName.beq w op f3 f7 = (op ≡ 0x63) × (f3 ≡ 0)
Accepts InstrName.bne w op f3 f7 = (op ≡ 0x63) × (f3 ≡ 1)
Accepts InstrName.blt w op f3 f7 = (op ≡ 0x63) × (f3 ≡ 4)
Accepts InstrName.bge w op f3 f7 = (op ≡ 0x63) × (f3 ≡ 5)
Accepts InstrName.bltu w op f3 f7 = (op ≡ 0x63) × (f3 ≡ 6)
Accepts InstrName.bgeu w op f3 f7 = (op ≡ 0x63) × (f3 ≡ 7)
Accepts InstrName.lb w op f3 f7 = (op ≡ 0x03) × (f3 ≡ 0)
Accepts InstrName.lh w op f3 f7 = (op ≡ 0x03) × (f3 ≡ 1)
Accepts InstrName.lw w op f3 f7 = (op ≡ 0x03) × (f3 ≡ 2)
Accepts InstrName.lbu w op f3 f7 = (op ≡ 0x03) × (f3 ≡ 4)
Accepts InstrName.lhu w op f3 f7 = (op ≡ 0x03) × (f3 ≡ 5)
Accepts InstrName.sb w op f3 f7 = (op ≡ 0x23) × (f3 ≡ 0)
Accepts InstrName.sh w op f3 f7 = (op ≡ 0x23) × (f3 ≡ 1)
Accepts InstrName.sw w op f3 f7 = (op ≡ 0x23) × (f3 ≡ 2)
Accepts InstrName.addi w op f3 f7 = (op ≡ 0x13) × (f3 ≡ 0)
Accepts InstrName.slti w op f3 f7 = (op ≡ 0x13) × (f3 ≡ 2)
Accepts InstrName.sltiu w op f3 f7 = (op ≡ 0x13) × (f3 ≡ 3)
Accepts InstrName.xori w op f3 f7 = (op ≡ 0x13) × (f3 ≡ 4)
Accepts InstrName.ori w op f3 f7 = (op ≡ 0x13) × (f3 ≡ 6)
Accepts InstrName.andi w op f3 f7 = (op ≡ 0x13) × (f3 ≡ 7)
Accepts InstrName.slli w op f3 f7 = (op ≡ 0x13) × (f3 ≡ 1)
Accepts InstrName.srli w op f3 f7 = (op ≡ 0x13) × (f3 ≡ 5) × (f7 ≡ 0)
Accepts InstrName.srai w op f3 f7 = (op ≡ 0x13) × (f3 ≡ 5) × (f7 ≡ 0x20)
Accepts InstrName.add w op f3 f7 = (op ≡ 0x33) × (f3 ≡ 0) × (f7 ≡ 0)
Accepts InstrName.sub w op f3 f7 = (op ≡ 0x33) × (f3 ≡ 0) × (f7 ≡ 0x20)
Accepts InstrName.sll w op f3 f7 = (op ≡ 0x33) × (f3 ≡ 1) × (f7 ≡ 0)
Accepts InstrName.slt w op f3 f7 = (op ≡ 0x33) × (f3 ≡ 2) × (f7 ≡ 0)
Accepts InstrName.sltu w op f3 f7 = (op ≡ 0x33) × (f3 ≡ 3) × (f7 ≡ 0)
Accepts InstrName.xor w op f3 f7 = (op ≡ 0x33) × (f3 ≡ 4) × (f7 ≡ 0)
Accepts InstrName.srl w op f3 f7 = (op ≡ 0x33) × (f3 ≡ 5) × (f7 ≡ 0)
Accepts InstrName.sra w op f3 f7 = (op ≡ 0x33) × (f3 ≡ 5) × (f7 ≡ 0x20)
Accepts InstrName.or w op f3 f7 = (op ≡ 0x33) × (f3 ≡ 6) × (f7 ≡ 0)
Accepts InstrName.and w op f3 f7 = (op ≡ 0x33) × (f3 ≡ 7) × (f7 ≡ 0)
Accepts InstrName.ecall w op f3 f7 = (op ≡ 0x73) × (w ≡ 0x73)
Accepts _ w op f3 f7 = ⊥

-- One side: a word that a switch accepts gets its name.
recognize-name :
    (n : InstrName) (w op f3 f7 : ℕ) → Accepts n w op f3 f7 → (recognize w op f3 f7).name ≡ n
unfolding recognize
recognize-name InstrName.lui w op f3 f7 h = rw h
recognize-name _ w op f3 f7 h = ground arith

abbrev Listed : InstrName → ℕ → ℕ → ℕ → ℕ → Type 0
Listed n w op f3 f7 = (n ≡ no_name) ⊎ Accepts n w op f3 f7

branch-Listed : (w f3 f7 : ℕ) → Listed (recognize_branch f3).name w 0x63 f3 f7
unfolding recognize_branch
branch-Listed w f3 f7 = ground arith

load-Listed : (w f3 f7 : ℕ) → Listed (recognize_load f3).name w 0x03 f3 f7
unfolding recognize_load
load-Listed w f3 f7 = ground arith

store-Listed : (w f3 f7 : ℕ) → Listed (recognize_store f3).name w 0x23 f3 f7
unfolding recognize_store
store-Listed w f3 f7 = ground arith

imm-Listed : (w f3 f7 : ℕ) → Listed (recognize_imm f3 f7).name w 0x13 f3 f7
unfolding recognize_imm
imm-Listed w f3 f7 = ground arith

reg-Listed : (w f3 f7 : ℕ) → Listed (recognize_reg f3 f7).name w 0x33 f3 f7
unfolding recognize_reg
reg-Listed w f3 f7 = ground arith

recognize-Listed : (w op f3 f7 : ℕ) → Listed (recognize w op f3 f7).name w op f3 f7
unfolding recognize
recognize-Listed w op f3 f7 = ground arith

accepted_iff :
    (n : InstrName) (w op f3 f7 : ℕ)
    → n ≢ no_name
    → ((recognize w op f3 f7).name ≡ n) ↔ Accepts n w op f3 f7
accepted_iff n w op f3 f7 known = (
  λ e. subst (λ x. Accepts x w op f3 f7) e (go (recognize-Listed w op f3 f7) e),
  recognize-name n w op f3 f7,
)
  where
    go :
        Listed (recognize w op f3 f7).name w op f3 f7
        → (recognize w op f3 f7).name ≡ n
        → Accepts (recognize w op f3 f7).name w op f3 f7
    go (inl unknown) e = absurd (known (sym e ∙ unknown))
    go (inr h) e = h

accept :
    (n : InstrName) (w op f3 f7 : ℕ)
    → (Encodes n w op f3 f7 × ¬ IsMissing n) ⊎ Misread n op f3 f7
    → Accepts n w op f3 f7
accept _ w op f3 f7 h = ground arith

refuse :
    (n : InstrName) (w op f3 f7 : ℕ)
    → Accepts n w op f3 f7
    → (Encodes n w op f3 f7 × ¬ IsMissing n) ⊎ Misread n op f3 f7
refuse _ w op f3 f7 h = ground arith

-- A name other than NONE against the instruction set.
pub recognize_iff :
    (n : InstrName) (w op f3 f7 : ℕ)
    → n ≢ no_name
    → ((recognize w op f3 f7).name ≡ n)
      ↔ ((Encodes n w op f3 f7 × ¬ IsMissing n) ⊎ Misread n op f3 f7)
recognize_iff n w op f3 f7 known =
    let (there, back) = accepted_iff n w op f3 f7 known in
    (λ e. refuse n w op f3 f7 (there e), λ h. back (accept n w op f3 f7 h))
