-- ===== src/Executors.antt =====
-- src/Executors.cpp: one function for each executor, and `Instruction::execute` of
-- src/Instruction.cpp, which calls the one that the decoder chose. `int32_t` values are bit patterns
-- and sums wrap, as on every two's complement machine; a shift by an amount that is not below 32 is
-- undefined in C++, and is `undefined` here.
pub mod Arithmetic
pub mod Branches
pub mod Frame
use perf_sim.Base.{
  ℕ, Bool, not, Option, none, some, bit_and, bit_or, bit_xor, Result, ok, undefined, ◌>>=◌, ◌>>◌,
  guard, if◌then◌else◌, ◌==◌, ltb, u32, add32, sub32, sra32, signed32, ◌<<<◌, ◌>>>◌,
}
use perf_sim.Base.Int.{ltb_ℤ}
use perf_sim.Types.{type_r, type_i, type_s, type_b, type_u, type_j}
use perf_sim.Instruction.{
  Executor, Instruction, get_imm, get_rs1, set_rd_value, set_br_target_addr, as_class,
}

-- 1 or 0, as the comparisons store it.
abbrev flag : Bool → ℕ
flag b = if b then 1 else 0

unfoldable pub lui : Instruction → Result Instruction
unfolding as_class set_rd_value
lui instr = do t ← as_class type_u instr; set_rd_value t t.imm

unfoldable pub auipc : Instruction → Result Instruction
unfolding as_class set_rd_value
auipc instr = do t ← as_class type_u instr; set_rd_value t (add32 t.imm instr.pc)

unfoldable pub store : Instruction → Result Instruction
unfolding as_class
store instr = do t ← as_class type_s instr; ok (record t { acc_addr = add32 t.imm t.rs1.value })

unfoldable pub load : Instruction → Result Instruction
unfolding as_class
load instr = do t ← as_class type_i instr; ok (record t { acc_addr = add32 t.imm t.rs1.value })

-- The sum is taken in 64 bits and cut to 32.
unfoldable pub addi : Instruction → Result Instruction
unfolding as_class set_rd_value
addi instr = do t ← as_class type_i instr; set_rd_value t (add32 t.rs1.value t.imm)

unfoldable pub slti : Instruction → Result Instruction
unfolding get_imm get_rs1 set_rd_value
slti instr = do
  imm ← get_imm instr
  rs1 ← get_rs1 instr
  set_rd_value instr (flag (ltb_ℤ (signed32 rs1.value) (signed32 imm)))

unfoldable pub sltiu : Instruction → Result Instruction
unfolding get_imm get_rs1 set_rd_value
sltiu instr = do
  imm ← get_imm instr
  rs1 ← get_rs1 instr
  set_rd_value instr (flag (ltb rs1.value imm))

-- The code has `&` here.
unfoldable pub xori : Instruction → Result Instruction
unfolding get_imm get_rs1 set_rd_value
xori instr = do imm ← get_imm instr; rs1 ← get_rs1 instr; set_rd_value instr (bit_and rs1.value imm)

unfoldable pub ori : Instruction → Result Instruction
unfolding get_imm get_rs1 set_rd_value
ori instr = do imm ← get_imm instr; rs1 ← get_rs1 instr; set_rd_value instr (bit_or rs1.value imm)

-- The code has `^` here.
unfoldable pub andi : Instruction → Result Instruction
unfolding get_imm get_rs1 set_rd_value
andi instr = do imm ← get_imm instr; rs1 ← get_rs1 instr; set_rd_value instr (bit_xor rs1.value imm)

unfoldable pub slli : Instruction → Result Instruction
unfolding as_class set_rd_value
slli instr = do
  t ← as_class type_i instr
  set_rd_value t (u32 (t.rs1.value <<< bit_and t.imm 0b11111))

unfoldable pub srli : Instruction → Result Instruction
unfolding as_class set_rd_value
srli instr = do t ← as_class type_i instr; set_rd_value t (t.rs1.value >>> bit_and t.imm 0b11111)

unfoldable pub srai : Instruction → Result Instruction
unfolding as_class set_rd_value
srai instr = do
  t ← as_class type_i instr
  set_rd_value t (sra32 t.rs1.value (bit_and t.imm 0b11111))

unfoldable pub add : Instruction → Result Instruction
unfolding as_class set_rd_value
add instr = do t ← as_class type_r instr; set_rd_value t (add32 t.rs1.value t.rs2.value)

unfoldable pub sub : Instruction → Result Instruction
unfolding as_class set_rd_value
sub instr = do t ← as_class type_r instr; set_rd_value t (sub32 t.rs1.value t.rs2.value)

-- The amount is the whole register, with no mask.
unfoldable pub sll : Instruction → Result Instruction
unfolding as_class set_rd_value
sll instr = do
  t ← as_class type_r instr
  guard (ltb t.rs2.value 32) undefined
  set_rd_value t (u32 (t.rs1.value <<< t.rs2.value))

unfoldable pub slt : Instruction → Result Instruction
unfolding as_class set_rd_value
slt instr = do
  t ← as_class type_r instr
  set_rd_value t (flag (ltb_ℤ (signed32 t.rs1.value) (signed32 t.rs2.value)))

unfoldable pub sltu : Instruction → Result Instruction
unfolding as_class set_rd_value
sltu instr = do t ← as_class type_r instr; set_rd_value t (flag (ltb t.rs1.value t.rs2.value))

unfoldable pub xor : Instruction → Result Instruction
unfolding as_class set_rd_value
xor instr = do t ← as_class type_r instr; set_rd_value t (bit_xor t.rs1.value t.rs2.value)

unfoldable pub srl : Instruction → Result Instruction
unfolding as_class set_rd_value
srl instr = do
  t ← as_class type_r instr
  guard (ltb t.rs2.value 32) undefined
  set_rd_value t (t.rs1.value >>> t.rs2.value)

unfoldable pub sra : Instruction → Result Instruction
unfolding as_class set_rd_value
sra instr = do
  t ← as_class type_r instr
  guard (ltb t.rs2.value 32) undefined
  set_rd_value t (sra32 t.rs1.value t.rs2.value)

unfoldable pub or : Instruction → Result Instruction
unfolding as_class set_rd_value
or instr = do t ← as_class type_r instr; set_rd_value t (bit_or t.rs1.value t.rs2.value)

unfoldable pub and : Instruction → Result Instruction
unfolding as_class set_rd_value
and instr = do t ← as_class type_r instr; set_rd_value t (bit_and t.rs1.value t.rs2.value)

-- The common end of the branches: the target, then the verdict.
branch_with : (ℕ → ℕ → Bool) → Instruction → Result Instruction
unfolding as_class set_br_target_addr
branch_with test instr = do
  t ← as_class type_b instr
  t' ← set_br_target_addr t (add32 t.imm instr.pc)
  ok (record t' { br_is_taken = test t.rs1.value t.rs2.value })

unfoldable pub bltu : Instruction → Result Instruction
unfolding branch_with
bltu = branch_with (λ a b. ltb a b)

unfoldable pub bgeu : Instruction → Result Instruction
unfolding branch_with
bgeu = branch_with (λ a b. not (ltb a b))

unfoldable pub beq : Instruction → Result Instruction
unfolding branch_with
beq = branch_with (λ a b. a == b)

unfoldable pub bne : Instruction → Result Instruction
unfolding branch_with
bne = branch_with (λ a b. not (a == b))

unfoldable pub blt : Instruction → Result Instruction
unfolding branch_with
blt = branch_with (λ a b. ltb_ℤ (signed32 a) (signed32 b))

unfoldable pub bge : Instruction → Result Instruction
unfolding branch_with
bge = branch_with (λ a b. not (ltb_ℤ (signed32 a) (signed32 b)))

unfoldable pub jal : Instruction → Result Instruction
unfolding as_class set_br_target_addr set_rd_value
jal instr = do
  t ← as_class type_j instr
  t' ← set_br_target_addr t (add32 t.imm instr.pc)
  set_rd_value t' (add32 instr.pc 4)

unfoldable pub jalr : Instruction → Result Instruction
unfolding as_class set_br_target_addr set_rd_value
jalr instr = do
  t ← as_class type_i instr
  t' ← set_br_target_addr t (add32 t.imm t.rs1.value)
  set_rd_value t' (add32 instr.pc 4)

unfoldable pub ecall : Instruction → Result Instruction
ecall instr = ok instr

-- The call through the function pointer.
unfoldable pub run_executor : Executor → Instruction → Result Instruction
unfolding lui auipc jal jalr beq bne blt bge bltu bgeu store load addi slti sltiu xori ori andi slli
    srli srai add sub sll slt sltu xor srl sra or and ecall
run_executor Executor.lui = lui
run_executor Executor.auipc = auipc
run_executor Executor.jal = jal
run_executor Executor.jalr = jalr
run_executor Executor.beq = beq
run_executor Executor.bne = bne
run_executor Executor.blt = blt
run_executor Executor.bge = bge
run_executor Executor.bltu = bltu
run_executor Executor.bgeu = bgeu
run_executor Executor.store = store
run_executor Executor.load = load
run_executor Executor.addi = addi
run_executor Executor.slti = slti
run_executor Executor.sltiu = sltiu
run_executor Executor.xori = xori
run_executor Executor.ori = ori
run_executor Executor.andi = andi
run_executor Executor.slli = slli
run_executor Executor.srli = srli
run_executor Executor.srai = srai
run_executor Executor.add = add
run_executor Executor.sub = sub
run_executor Executor.sll = sll
run_executor Executor.slt = slt
run_executor Executor.sltu = sltu
run_executor Executor.xor = xor
run_executor Executor.srl = srl
run_executor Executor.sra = sra
run_executor Executor.or = or
run_executor Executor.and = and
run_executor Executor.ecall = ecall

-- `Instruction::execute`: nothing happens where there is no executor.
unfoldable pub execute_pointer : Option Executor → Instruction → Result Instruction
unfolding run_executor
execute_pointer none instr = ok instr
execute_pointer (some e) instr = run_executor e instr

unfoldable pub execute : Instruction → Result Instruction
unfolding execute_pointer
execute instr = execute_pointer instr.main_executor instr
