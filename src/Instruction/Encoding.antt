-- ===== src/Instruction/Encoding.antt =====
-- The six RV32I instruction formats, as an assembler lays the fields out: the independent
-- description that the decoder's field extraction is held to.
use perf_sim.Base.{ℕ, ◌+◌, ◌-◌, ◌*◌, ◌/◌, ◌%◌, ◌^◌, ltb, if◌then◌else◌}

abbrev pub encode_r : ℕ → ℕ → ℕ → ℕ → ℕ → ℕ → ℕ
encode_r f7 rs2 rs1 f3 rd op =
    f7 * 2 ^ 25 + rs2 * 2 ^ 20 + rs1 * 2 ^ 15 + f3 * 2 ^ 12 + rd * 2 ^ 7 + op

-- `v` is the 12-bit two's complement form of the immediate.
abbrev pub encode_i : ℕ → ℕ → ℕ → ℕ → ℕ → ℕ
encode_i v rs1 f3 rd op = v * 2 ^ 20 + rs1 * 2 ^ 15 + f3 * 2 ^ 12 + rd * 2 ^ 7 + op

abbrev pub encode_s : ℕ → ℕ → ℕ → ℕ → ℕ → ℕ
encode_s v rs2 rs1 f3 op = encode_r (v / 32) rs2 rs1 f3 (v % 32) op

-- `v` is the 13-bit form; bit 0 is not stored, bit 11 goes to bit 7 and bit 12 to bit 31.
abbrev pub encode_b : ℕ → ℕ → ℕ → ℕ → ℕ → ℕ
encode_b v rs2 rs1 f3 op =
    encode_r (v / 4096 * 64 + v / 32 % 64) rs2 rs1 f3 (v / 2 % 16 * 2 + v / 2048 % 2) op

-- `v` is the upper 20 bits.
abbrev pub encode_u : ℕ → ℕ → ℕ → ℕ
encode_u v rd op = v * 2 ^ 12 + rd * 2 ^ 7 + op

-- `v` is the 21-bit form: bits 20, 10 to 1, 11, 19 to 12 in this order.
abbrev pub encode_j : ℕ → ℕ → ℕ → ℕ
encode_j v rd op =
    encode_u (v / 2 ^ 20 * 2 ^ 19 + v / 2 % 1024 * 2 ^ 9 + v / 2048 % 2 * 2 ^ 8 + v / 4096 % 256) rd
      op

-- The 32-bit pattern of a number that is given in `n + 1` bits.
abbrev pub sign_extend : ℕ → ℕ → ℕ
sign_extend n v = if ltb v (2 ^ n) then v else v + 2 ^ 32 - 2 ^ (n + 1)
