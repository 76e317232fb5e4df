-- ===== src/Executors/Arithmetic.antt =====
-- The arithmetic, comparison, shift and bit executors against the integers that the words stand for.
pub mod Shifts
use perf_sim.Base.{
  ℕ, ◌+◌, ◌-◌, ◌%◌, ◌^◌, ◌<◌, ◌≡◌, ◌↔◌, ◌⊎◌, inl, inr, refl, sym, ap, ◌∙◌, Bool, true, false,
  bit_and, bit_xor, arith, Result, ok, err, IsWord, ltb, if◌then◌else◌, add32, sub32, signed32,
}
use perf_sim.Base.Int.{ℤ, pos_part, neg_part, ◌+ℤ◌, ◌-ℤ◌, ◌<ℤ◌, ltb_ℤ}
use perf_sim.Base.Bits.{and_xor_zero}
use perf_sim.Types.{type_r, type_i}
use perf_sim.Instruction.{Instruction}
use perf_sim.Executors.{add, addi, sub, slt, slti, sltu, sltiu, xori, andi}

-- The object after an executor has put `v` into `rd`.
abbrev pub with_rd : Instruction → ℕ → Instruction
with_rd i v = record i { rd = record i.rd { value = v } }

-- Two integers differ by a multiple of 2 ^ 32. A word stands for one integer only in each class.
abbrev pub Congruent : ℤ → ℤ → Type 0
Congruent x y = (pos_part x + neg_part y) % 2 ^ 32 ≡ (pos_part y + neg_part x) % 2 ^ 32

signed32-add32 :
    (a b : ℕ) → IsWord a → IsWord b → Congruent (signed32 (add32 a b)) (signed32 a +ℤ signed32 b)
signed32-add32 a b ha hb = ground arith

signed32-sub32 :
    (a b : ℕ) → IsWord a → IsWord b → Congruent (signed32 (sub32 a b)) (signed32 a -ℤ signed32 b)
signed32-sub32 a b ha hb = ground arith

-- What an executor that computes a value does: only `rd.value` changes, and the value is right.
abbrev pub Puts : Result Instruction → Instruction → (ℕ → Type 0) → Type 0
Puts r i P = (v : ℕ) × (r ≡ ok (with_rd i v)) × IsWord v × P v

-- On an object of type R with operands of 32 bits, ADD and SUB put into rd the word of the sum
-- and of the difference of the two signed operands, up to a multiple of 2 ^ 32, and change
-- nothing else.
pub add-sub-Congruent :
    (i : Instruction)
    → i.type ≡ type_r
    → IsWord i.rs1.value
    → IsWord i.rs2.value
    → Puts (add i) i (λ v. Congruent (signed32 v) (signed32 i.rs1.value +ℤ signed32 i.rs2.value))
      × Puts (sub i) i (λ v. Congruent (signed32 v) (signed32 i.rs1.value -ℤ signed32 i.rs2.value))
unfolding add sub
add-sub-Congruent i t wa wb = (
  (add32 i.rs1.value i.rs2.value, rw t, omega arith, signed32-add32 _ _ wa wb),
  (sub32 i.rs1.value i.rs2.value, rw t, omega arith, signed32-sub32 _ _ wa wb),
)

-- On an object of type I with an operand and an immediate of 32 bits, ADDI puts into rd the word
-- of the sum of the two signed numbers, up to a multiple of 2 ^ 32, and changes nothing else.
pub addi-Congruent :
    (i : Instruction)
    → i.type ≡ type_i
    → IsWord i.rs1.value
    → IsWord i.imm
    → Puts (addi i) i (λ v. Congruent (signed32 v) (signed32 i.rs1.value +ℤ signed32 i.imm))
unfolding addi
addi-Congruent i t wa wb = (add32 i.rs1.value i.imm, rw t, omega arith, signed32-add32 _ _ wa wb)

-- 1 where the statement holds, and 0 where it does not.
abbrev pub Flags : ℕ → Type 0 → Type 0
Flags v P = ((v ≡ 1) × P) ⊎ ((v ≡ 0) × ¬ P)

flag_of : (b : Bool) {P : Type 0} → (b ≡ true) ↔ P → Flags (if b then 1 else 0) P
flag_of true e = inl (refl, e.0 refl)
flag_of false e = inr (refl, λ p. cc (e.1 p))

ltb_iff : (a b : ℕ) → (ltb a b ≡ true) ↔ (a < b)
ltb_iff a b = ground arith

flag-IsWord : (b : Bool) → IsWord (if b then 1 else 0)
flag-IsWord b = ground arith

-- On an object of type R, SLT and SLTU put 1 into rd exactly where the first operand is less, as
-- a signed and as an unsigned number, else 0.
pub slt-sltu-Flags :
    (i : Instruction)
    → i.type ≡ type_r
    → Puts (slt i) i (λ v. Flags v (signed32 i.rs1.value <ℤ signed32 i.rs2.value))
      × Puts (sltu i) i (λ v. Flags v (i.rs1.value < i.rs2.value))
unfolding slt sltu
slt-sltu-Flags i t =
    let s = ltb_ℤ (signed32 i.rs1.value) (signed32 i.rs2.value) in
    let u = ltb i.rs1.value i.rs2.value in
    (
      (_, rw t, flag-IsWord s, flag_of s (ltb_iff _ _)),
      (_, rw t, flag-IsWord u, flag_of u (ltb_iff _ _)),
    )

-- On an object of type I, SLTI and SLTIU put 1 into rd exactly where the operand is less than the
-- immediate, as a signed and as an unsigned number, else 0.
pub slti-sltiu-Flags :
    (i : Instruction)
    → i.type ≡ type_i
    → Puts (slti i) i (λ v. Flags v (signed32 i.rs1.value <ℤ signed32 i.imm))
      × Puts (sltiu i) i (λ v. Flags v (i.rs1.value < i.imm))
unfolding slti sltiu
slti-sltiu-Flags i t =
    let s = ltb_ℤ (signed32 i.rs1.value) (signed32 i.imm) in
    let u = ltb i.rs1.value i.imm in
    (
      (_, rw t, flag-IsWord s, flag_of s (ltb_iff _ _)),
      (_, rw t, flag-IsWord u, flag_of u (ltb_iff _ _)),
    )

rd_value : Result Instruction → ℕ
rd_value (ok i) = i.rd.value
rd_value (err e) = 0

puts_injective : (i : Instruction) (a b : ℕ) → ok (with_rd i a) ≡ ok (with_rd i b) → a ≡ b
unfolding rd_value
puts_injective i a b e = ap rd_value e

zeros_agree : (a b : ℕ) → (a ≡ 0) × (b ≡ 0) → bit_and a b ≡ bit_xor a b
zeros_agree a b z = rw (z.0, z.1)

-- On an object of type I, XORI puts the bitwise AND into rd and ANDI the exclusive or; each is
-- the result of the instruction set exactly where the operand and the immediate are both zero.
pub xori-andi-swapped :
    (i : Instruction)
    → i.type ≡ type_i
    → (xori i ≡ ok (with_rd i (bit_and i.rs1.value i.imm)))
      × (andi i ≡ ok (with_rd i (bit_xor i.rs1.value i.imm)))
      × (xori i ≡ ok (with_rd i (bit_xor i.rs1.value i.imm)) ↔ (i.rs1.value ≡ 0) × (i.imm ≡ 0))
      × (andi i ≡ ok (with_rd i (bit_and i.rs1.value i.imm)) ↔ (i.rs1.value ≡ 0) × (i.imm ≡ 0))
unfolding xori andi
xori-andi-swapped i t =
    let x : xori i ≡ ok (with_rd i (bit_and i.rs1.value i.imm)) = rw t in
    let y : andi i ≡ ok (with_rd i (bit_xor i.rs1.value i.imm)) = rw t in
    (
      x,
      y,
      (
        λ h. and_xor_zero _ _ (puts_injective i _ _ (sym x ∙ h)),
        λ z. x ∙ ap (λ (v : ℕ). ok (with_rd i v)) (zeros_agree _ _ z),
      ),
      (
        λ h. and_xor_zero _ _ (sym (puts_injective i _ _ (sym y ∙ h))),
        λ z. y ∙ ap (λ (v : ℕ). ok (with_rd i v)) (sym (zeros_agree _ _ z)),
      ),
    )
