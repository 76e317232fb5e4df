-- ===== src/Tests/Parts/Codes.antt =====
-- The theorems about encodings and the decoder at concrete words.
use perf_sim.Base.{◌*◌, ◌^◌, ◌≡◌, refl, arith}
use perf_sim.Instruction.{imm_i, imm_s, imm_b, imm_u, imm_j}
use perf_sim.Instruction.Encoding.{encode_i, encode_s, encode_b, encode_u, encode_j, sign_extend}
use perf_sim.Instruction.Immediates.{
  imm_i-encode_i, imm_s-encode_s, imm_b-encode_b, imm_u-encode_u, imm_j-encode_j,
}

imm_i-encode_i_example : imm_i (encode_i 0xfff 1 0 2 0x13) ≡ sign_extend 11 0xfff
imm_i-encode_i_example =
    imm_i-encode_i 0xfff 1 0 2 0x13 (omega arith) (omega arith) (omega arith) (omega arith)
      (omega arith)

imm_s-encode_s_example : imm_s (encode_s 0x804 1 2 2 0x23) ≡ sign_extend 11 0x804
imm_s-encode_s_example =
    imm_s-encode_s 0x804 1 2 2 0x23 (omega arith) (omega arith) (omega arith) (omega arith)
      (omega arith)

imm_b-encode_b_example : imm_b (encode_b 0x1ffc 1 2 0 0x63) ≡ sign_extend 12 0x1ffc
imm_b-encode_b_example =
    imm_b-encode_b 0x1ffc 1 2 0 0x63 (omega arith) refl (omega arith) (omega arith) (omega arith)
      (omega arith)

imm_u-encode_u_example : imm_u (encode_u 0x12345 1 0x37) ≡ 0x12345 * 2 ^ 12
imm_u-encode_u_example = imm_u-encode_u 0x12345 1 0x37 (omega arith) (omega arith) (omega arith)

imm_j-encode_j_example : imm_j (encode_j 0x1ffff8 1 0x6f) ≡ sign_extend 20 0x1ffff8
imm_j-encode_j_example =
    imm_j-encode_j 0x1ffff8 1 0x6f (omega arith) refl (omega arith) (omega arith)
