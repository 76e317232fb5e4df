-- ===== src/Instruction.antt =====
-- headers/Instruction.h and src/Instruction.cpp. One record holds the fields of `Instruction` and of
-- its six subclasses; the field `type` tells the class, as the decoder sets it together with the
-- array that the object comes from. A virtual getter that a class does not override throws 1.
pub mod Encoding
pub mod Immediates
use perf_sim.Base.{
  ℕ, ◌+◌, Bool, true, false, Option, none, bit_and, Result, ok, err, Error, if◌then◌else◌, ◌==◌,
  u32, ◌<<<◌, ◌>>>◌,
}
use perf_sim.Types.{
  AccessType, InstrType, InstrName, RegName, access_none, type_r, type_i, type_s, type_b, type_u,
  type_j, type_none, no_name, same_type, register_name_zero,
}

pub record Register : Type 0 where
  pub value : ℕ  -- int32_t
  pub name : RegName

-- `Register()`: the value-initialised register.
abbrev pub empty_register : Register
empty_register = record { value = 0; name = register_name_zero }

-- What `main_executor` can point to: the functions of the namespace `Executors`.
pub data Executor : Type 0 where
  lui auipc jal jalr beq bne blt bge bltu bgeu store load : Executor
  addi slti sltiu xori ori andi slli srli srai : Executor
  add sub sll slt sltu xor srl sra or and ecall : Executor

pub record Instruction : Type 0 where
  pub type : InstrType
  pub name : InstrName
  pub opcode : ℕ
  pub pc : ℕ
  pub mem_acc_type : AccessType
  pub is_branch : Bool
  pub branch_addr : ℕ
  pub main_executor : Option Executor
  pub funct3 : ℕ
  pub funct7 : ℕ
  pub imm : ℕ
  pub rs1 : Register
  pub rs2 : Register
  pub rd : Register
  pub acc_addr : ℕ  -- load_addres, store_addres
  pub acc_size : ℕ  -- load_size, store_size
  pub br_is_taken : Bool

-- A default-constructed object.
abbrev pub new_instruction : Instruction
new_instruction = record {
  type = type_none;
  name = no_name;
  opcode = 0;
  pc = 0;
  mem_acc_type = access_none;
  is_branch = false;
  branch_addr = 0;
  main_executor = none;
  funct3 = 0;
  funct7 = 0;
  imm = 0;
  rs1 = empty_register;
  rs2 = empty_register;
  rd = empty_register;
  acc_addr = 0;
  acc_size = 0;
  br_is_taken = false;
}

abbrev pub has_rs1 : InstrType → Bool
has_rs1 type_r = true
has_rs1 type_i = true
has_rs1 type_s = true
has_rs1 type_b = true
has_rs1 _ = false

abbrev pub has_rs2 : InstrType → Bool
has_rs2 type_r = true
has_rs2 type_s = true
has_rs2 type_b = true
has_rs2 _ = false

abbrev pub has_rd : InstrType → Bool
has_rd type_r = true
has_rd type_i = true
has_rd type_u = true
has_rd type_j = true
has_rd _ = false

abbrev pub has_imm : InstrType → Bool
has_imm type_i = true
has_imm type_s = true
has_imm type_b = true
has_imm type_u = true
has_imm type_j = true
has_imm _ = false

unfoldable pub get_imm : Instruction → Result ℕ
get_imm i = if has_imm i.type then ok i.imm else err Error.thrown_int

unfoldable pub get_rs1 : Instruction → Result Register
get_rs1 i = if has_rs1 i.type then ok i.rs1 else err Error.thrown_int

unfoldable pub get_rs2 : Instruction → Result Register
get_rs2 i = if has_rs2 i.type then ok i.rs2 else err Error.thrown_int

unfoldable pub get_rd : Instruction → Result Register
get_rd i = if has_rd i.type then ok i.rd else err Error.thrown_int

-- `get_rd_ref().set_value(v)`.
unfoldable pub set_rd_value : Instruction → ℕ → Result Instruction
set_rd_value i v =
    if has_rd i.type
    then ok (record i { rd = record { value = v; name = i.rd.name } })
    else err Error.thrown_int

unfoldable pub get_br_target_addr : Instruction → Result ℕ
get_br_target_addr i = if i.is_branch then ok i.branch_addr else err Error.thrown_int

unfoldable pub set_br_target_addr : Instruction → ℕ → Result Instruction
set_br_target_addr i a =
    if i.is_branch then ok (record i { branch_addr = a }) else err Error.thrown_int

-- `dynamic_cast` to the class of a type; the code uses the pointer without a test for null.
unfoldable pub as_class : InstrType → Instruction → Result Instruction
as_class c i = if same_type i.type c then ok i else err Error.undefined

-- The sign bits of an immediate, `ones << shift`, where bit 31 of the instruction is set.
sign_bits : ℕ → ℕ → ℕ → ℕ
sign_bits instr ones shift = if bit_and (instr >>> 31) 0b1 == 0b1 then u32 (ones <<< shift) else 0

unfoldable pub imm_i : ℕ → ℕ
unfolding sign_bits
imm_i instr =
    let s1 = sign_bits instr 0b111111111111111111111 11 in
    let s2 = bit_and (instr >>> 25) 0b111111 <<< 5 in
    let s3 = bit_and (instr >>> 21) 0b1111 <<< 1 in
    let s4 = bit_and (instr >>> 20) 0b1 in u32 (s1 + s2 + s3 + s4)

unfoldable pub imm_s : ℕ → ℕ
unfolding sign_bits
imm_s instr =
    let s1 = sign_bits instr 0b111111111111111111111 11 in
    let s2 = bit_and (instr >>> 25) 0b111111 <<< 5 in
    let s3 = bit_and (instr >>> 8) 0b1111 <<< 1 in
    let s4 = bit_and (instr >>> 7) 0b1 in u32 (s1 + s2 + s3 + s4)

unfoldable pub imm_b : ℕ → ℕ
unfolding sign_bits
imm_b instr =
    let s1 = sign_bits instr 0b11111111111111111111 12 in
    let s2 = bit_and (instr >>> 25) 0b111111 <<< 5 in
    let s3 = bit_and (instr >>> 8) 0b1111 <<< 1 in
    let s4 = bit_and (instr >>> 7) 0b1 <<< 11 in u32 (s1 + s2 + s3 + s4)

unfoldable pub imm_u : ℕ → ℕ
imm_u instr = bit_and instr 0b11111111111111111111000000000000

unfoldable pub imm_j : ℕ → ℕ
unfolding sign_bits
imm_j instr =
    let s1 = sign_bits instr 0b111111111111 20 in
    let s2 = bit_and instr (0b11111111 <<< 12) in
    let s3 = bit_and (instr >>> 20) 0b1 <<< 11 in
    let s4 = bit_and (instr >>> 25) 0b111111 <<< 5 in
    let s5 = bit_and (instr >>> 21) 0b1111 <<< 1 in u32 (s1 + s2 + s3 + s4 + s5)

-- The virtual `calc_imm`; that of the base class does nothing, and `InstructionR` keeps it.
unfoldable pub calc_imm : InstrType → ℕ → ℕ → ℕ
calc_imm type_i old instr = imm_i instr
calc_imm type_s old instr = imm_s instr
calc_imm type_b old instr = imm_b instr
calc_imm type_u old instr = imm_u instr
calc_imm type_j old instr = imm_j instr
calc_imm _ old instr = old
