-- ===== src/Executors/Arithmetic/Shifts.antt =====
-- The shifts of src/Executors.cpp, on words and on the numbers that they stand for.
use perf_sim.Base.{
  ℕ, ◌+◌, ◌-◌, ◌*◌, ◌/◌, ◌%◌, ◌^◌, ◌≤◌, ◌<◌, ◌≡◌, inl, inr, refl, bit_and, arith, IsWord, ltb,
  sra32, signed32, Bool-cases, ltb→lt, lt→ltb,
}
use native.Mathlib.Nat.{one-le-pow, div-add-mod}
use perf_sim.Base.Int.{ℤ, pos, negsuc, pos_part, neg_part}
use perf_sim.Base.Bits.{bit_and_mask}
use perf_sim.Types.{type_r, type_i}
use perf_sim.Instruction.{Instruction}
use perf_sim.Executors.{slli, srli, srai, sll, srl, sra}
use perf_sim.Executors.Arithmetic.{Puts}

-- `v` is `x / 2 ^ k`, rounded down: `v * 2 ^ k ≤ x < (v + 1) * 2 ^ k` in integers.
abbrev pub IsFloor : ℤ → ℕ → ℤ → Type 0
IsFloor x k v =
    (pos_part v * 2 ^ k + neg_part x ≤ pos_part x + neg_part v * 2 ^ k)
    × (pos_part x + neg_part v * 2 ^ k < pos_part v * 2 ^ k + neg_part x + 2 ^ k)

div_bounds : (n k : ℕ) → (n / 2 ^ k * 2 ^ k ≤ n) × (n < n / 2 ^ k * 2 ^ k + 2 ^ k) × (n / 2 ^ k ≤ n)
div_bounds n k =
    let p = one-le-pow k 2 (omega arith) in
    let q : n / 2 ^ k ≤ n / 2 ^ k * 2 ^ k = grind arith in
    let e = div-add-mod n (2 ^ k) in omega arith

signed32-low : (a : ℕ) → a < 2 ^ 31 → signed32 a ≡ pos a
signed32-low a h = ground arith

signed32-high : (n : ℕ) → n < 2 ^ 31 → signed32 (2 ^ 32 - 1 - n) ≡ negsuc n
signed32-high n h = ground arith

IsFloor-low : (a k : ℕ) → a < 2 ^ 31 → IsFloor (pos a) k (signed32 (a / 2 ^ k))
IsFloor-low a k h =
    let b = div_bounds a k in rw (signed32-low (a / 2 ^ k) (omega arith)) (omega arith)

IsFloor-high : (n k : ℕ) → n < 2 ^ 31 → IsFloor (negsuc n) k (signed32 (2 ^ 32 - 1 - n / 2 ^ k))
IsFloor-high n k h =
    let b = div_bounds n k in rw (signed32-high (n / 2 ^ k) (omega arith)) (omega arith)

sra32-IsFloor : (a k : ℕ) → IsWord a → IsFloor (signed32 a) k (signed32 (sra32 a k))
sra32-IsFloor a k h = elim (Bool-cases (ltb a (2 ^ 31))) [
  | inl low ↦ rw low (IsFloor-low a k (ltb→lt _ _ low))
  | inr high ↦ rw high (IsFloor-high (2 ^ 32 - 1 - a) k (ground arith))
]

sra32-IsWord : (a k : ℕ) → IsWord a → IsWord (sra32 a k)
sra32-IsWord a k h = let b = div_bounds a k in ground arith

shift_amount : (i : Instruction) → bit_and i.imm 0b11111 ≡ i.imm % 32
shift_amount i = bit_and_mask 5 i.imm

-- On an object of type I with an operand of 32 bits, SLLI, SRLI and SRAI multiply by a power of
-- two modulo 2 ^ 32, divide the unsigned operand, and divide the signed operand rounding down;
-- the exponent is the immediate modulo 32.
pub shift_imm-Puts :
    (i : Instruction)
    → i.type ≡ type_i
    → IsWord i.rs1.value
    → let k = i.imm % 32 in
      Puts (slli i) i (λ v. v ≡ i.rs1.value * 2 ^ k % 2 ^ 32)
      × Puts (srli i) i (λ v. v ≡ i.rs1.value / 2 ^ k)
      × Puts (srai i) i (λ v. IsFloor (signed32 i.rs1.value) k (signed32 v))
unfolding slli srli srai
shift_imm-Puts i t wa =
    let b = div_bounds i.rs1.value (i.imm % 32) in
    (
      (_, rw (t, shift_amount i), omega arith, refl),
      (_, rw (t, shift_amount i), omega arith, refl),
      (
        _,
        rw (t, shift_amount i),
        sra32-IsWord i.rs1.value (i.imm % 32) wa,
        sra32-IsFloor i.rs1.value (i.imm % 32) wa,
      ),
    )

-- On an object of type R with a first operand of 32 bits and a second one below 32, SLL, SRL and
-- SRA multiply the first by the power of two that the second gives, modulo 2 ^ 32, divide it by
-- that as an unsigned number, and divide it by that as a signed one, rounding down.
pub shift-Puts :
    (i : Instruction)
    → i.type ≡ type_r
    → IsWord i.rs1.value
    → i.rs2.value < 32
    → let k = i.rs2.value in
      Puts (sll i) i (λ v. v ≡ i.rs1.value * 2 ^ k % 2 ^ 32)
      × Puts (srl i) i (λ v. v ≡ i.rs1.value / 2 ^ k)
      × Puts (sra i) i (λ v. IsFloor (signed32 i.rs1.value) k (signed32 v))
unfolding sll srl sra
shift-Puts i t wa small =
    let b = div_bounds i.rs1.value i.rs2.value in
    let e = lt→ltb i.rs2.value 32 small in
    (
      (_, rw (t, e), omega arith, refl),
      (_, rw (t, e), omega arith, refl),
      (
        _,
        rw (t, e),
        sra32-IsWord i.rs1.value i.rs2.value wa,
        sra32-IsFloor i.rs1.value i.rs2.value wa,
      ),
    )
