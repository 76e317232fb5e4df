-- ===== src/Instruction/Immediates.antt =====
-- The immediates that `calc_imm` of src/Instruction.cpp extracts, against the encodings.
use perf_sim.Base.{ℕ, ◌+◌, ◌-◌, ◌*◌, ◌/◌, ◌%◌, ◌^◌, ◌<◌, ◌≡◌, arith, IsWord}
use perf_sim.Base.Bits.{bit_and_mask, bit_and_shifted_mask}
use perf_sim.Instruction.{imm_i, imm_s, imm_b, imm_u, imm_j}
use perf_sim.Instruction.Encoding.{encode_i, encode_s, encode_b, encode_u, encode_j, sign_extend}

imm_i_fields : (w : ℕ) → IsWord w → imm_i w ≡ sign_extend 11 (w / 2 ^ 20)
unfolding imm_i
imm_i_fields w h = ground (
  arith,
  bit_and_mask 1 (w / 2 ^ 31),
  bit_and_mask 6 (w / 2 ^ 25),
  bit_and_mask 4 (w / 2 ^ 21),
  bit_and_mask 1 (w / 2 ^ 20),
)

-- The I-type immediate of an assembled instruction is the encoded one, sign-extended from 12
-- bits, for fields in their ranges.
pub imm_i-encode_i :
    (v rs1 f3 rd op : ℕ)
    → v < 2 ^ 12
    → rs1 < 32
    → f3 < 8
    → rd < 32
    → op < 128
    → imm_i (encode_i v rs1 f3 rd op) ≡ sign_extend 11 v
imm_i-encode_i v rs1 f3 rd op hv h1 h3 hd ho =
    ground (arith, imm_i_fields (encode_i v rs1 f3 rd op))

imm_s_fields : (w : ℕ) → IsWord w → imm_s w ≡ sign_extend 11 (w / 2 ^ 25 * 32 + w / 2 ^ 7 % 32)
unfolding imm_s
imm_s_fields w h = ground (
  arith,
  bit_and_mask 1 (w / 2 ^ 31),
  bit_and_mask 6 (w / 2 ^ 25),
  bit_and_mask 4 (w / 2 ^ 8),
  bit_and_mask 1 (w / 2 ^ 7),
)

-- The S-type immediate of an assembled instruction is the encoded one, sign-extended from 12
-- bits, for fields in their ranges.
pub imm_s-encode_s :
    (v rs2 rs1 f3 op : ℕ)
    → v < 2 ^ 12
    → rs2 < 32
    → rs1 < 32
    → f3 < 8
    → op < 128
    → imm_s (encode_s v rs2 rs1 f3 op) ≡ sign_extend 11 v
imm_s-encode_s v rs2 rs1 f3 op hv h2 h1 h3 ho =
    ground (arith, imm_s_fields (encode_s v rs2 rs1 f3 op))

imm_b_fields :
    (w : ℕ)
    → IsWord w
    → imm_b w
      ≡ sign_extend 12
          (w / 2 ^ 31 * 4096 + w / 2 ^ 7 % 2 * 2048 + w / 2 ^ 25 % 64 * 32 + w / 2 ^ 8 % 16 * 2)
unfolding imm_b
imm_b_fields w h = ground (
  arith,
  bit_and_mask 1 (w / 2 ^ 31),
  bit_and_mask 6 (w / 2 ^ 25),
  bit_and_mask 4 (w / 2 ^ 8),
  bit_and_mask 1 (w / 2 ^ 7),
)

-- The B-type offset of an assembled branch is the encoded one, if that is even, sign-extended
-- from 13 bits, for fields in their ranges.
pub imm_b-encode_b :
    (v rs2 rs1 f3 op : ℕ)
    → v < 2 ^ 13
    → v % 2 ≡ 0
    → rs2 < 32
    → rs1 < 32
    → f3 < 8
    → op < 128
    → imm_b (encode_b v rs2 rs1 f3 op) ≡ sign_extend 12 v
imm_b-encode_b v rs2 rs1 f3 op hv even h2 h1 h3 ho =
    ground (arith, imm_b_fields (encode_b v rs2 rs1 f3 op))

-- The U-type immediate of an assembled instruction is the encoded 20 bits above 12 zeros, for
-- fields in their ranges.
pub imm_u-encode_u :
    (v rd op : ℕ) → v < 2 ^ 20 → rd < 32 → op < 128 → imm_u (encode_u v rd op) ≡ v * 2 ^ 12
unfolding imm_u
imm_u-encode_u v rd op hv hd ho = omega (
  arith,
  bit_and_shifted_mask 12 (encode_u v rd op) (2 ^ 20 - 1),
  bit_and_mask 20 (encode_u v rd op / 2 ^ 12),
)

imm_j_fields :
    (w : ℕ)
    → IsWord w
    → imm_j w
      ≡ sign_extend 20 (
          w / 2 ^ 31 * 2 ^ 20
          + w / 2 ^ 12 % 256 * 4096
          + w / 2 ^ 20 % 2 * 2048
          + w / 2 ^ 21 % 1024 * 2)
unfolding imm_j
imm_j_fields w h = ground (
  arith,
  bit_and_mask 1 (w / 2 ^ 31),
  bit_and_shifted_mask 12 w 255,
  bit_and_mask 8 (w / 2 ^ 12),
  bit_and_mask 1 (w / 2 ^ 20),
  bit_and_mask 6 (w / 2 ^ 25),
  bit_and_mask 4 (w / 2 ^ 21),
)

-- The J-type offset of an assembled jump is the encoded one, if that is even, sign-extended from
-- 21 bits, for fields in their ranges.
pub imm_j-encode_j :
    (v rd op : ℕ)
    → v < 2 ^ 21
    → v % 2 ≡ 0
    → rd < 32
    → op < 128
    → imm_j (encode_j v rd op) ≡ sign_extend 20 v
imm_j-encode_j v rd op hv even hd ho = ground (arith, imm_j_fields (encode_j v rd op))
