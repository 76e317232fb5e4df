-- ===== src/Decoder/Recognize.antt =====
-- `Decoder::recognize` of src/Decoder.cpp: the name, type, executor and access of an instruction word.
use perf_sim.Base.{ℕ, Bool, true, false, Option, none, some, if◌then◌else◌, ◌==◌}
use perf_sim.Types.{
  AccessType, access_read, access_write, access_none, InstrType, InstrName, type_r, type_i, type_s,
  type_b, type_u, type_j, type_system, type_none, no_name,
}
use perf_sim.Instruction.{Executor}

pub record Recognized : Type 0 where
  pub name : InstrName
  pub type : InstrType
  pub executor : Option Executor
  pub mem_acc_type : AccessType
  pub acc_size : ℕ
  pub is_branch : Bool

-- The values that `decode` resets the members to.
abbrev pub unrecognized : Recognized
unrecognized = record {
  name = no_name;
  type = type_none;
  executor = none;
  mem_acc_type = access_none;
  acc_size = 0;
  is_branch = false;
}

abbrev pub plain : InstrName → InstrType → Executor → Recognized
plain n t e = record unrecognized { name = n; type = t; executor = some e }

abbrev pub branching : InstrName → InstrType → Executor → Recognized
branching n t e = record (plain n t e) { is_branch = true }

abbrev pub accessing : InstrName → InstrType → Executor → AccessType → ℕ → Recognized
accessing n t e acc size = record (plain n t e) { mem_acc_type = acc; acc_size = size }

abbrev pub only_type : InstrType → Recognized
only_type t = record unrecognized { type = t }

unfoldable pub recognize_branch : ℕ → Recognized
recognize_branch funct3 =
    if funct3 == 0b000
    then branching InstrName.beq type_b Executor.beq
    else if funct3 == 0b001
    then branching InstrName.bne type_b Executor.bne
    else if funct3 == 0b100
    then branching InstrName.blt type_b Executor.blt
    else if funct3 == 0b101
    then branching InstrName.bge type_b Executor.bge
    else if funct3 == 0b110
    then branching InstrName.bltu type_b Executor.bltu
    else if funct3 == 0b111
    then branching InstrName.bgeu type_b Executor.bgeu
    else record (only_type type_b) { is_branch = true }

unfoldable pub recognize_load : ℕ → Recognized
recognize_load funct3 =
    if funct3 == 0b000
    then accessing InstrName.lb type_i Executor.load access_read 1
    else if funct3 == 0b001
    then accessing InstrName.lh type_i Executor.load access_read 2
    else if funct3 == 0b010
    then accessing InstrName.lw type_i Executor.load access_read 4
    else if funct3 == 0b100
    then accessing InstrName.lbu type_i Executor.load access_read 1
    else if funct3 == 0b101
    then accessing InstrName.lhu type_i Executor.load access_read 2
    else plain no_name type_i Executor.load

unfoldable pub recognize_store : ℕ → Recognized
recognize_store funct3 =
    if funct3 == 0b000
    then accessing InstrName.sb type_s Executor.store access_write 1
    else if funct3 == 0b001
    then accessing InstrName.sh type_s Executor.store access_write 2
    else if funct3 == 0b010
    then accessing InstrName.sw type_s Executor.store access_write 4
    else only_type type_s

unfoldable pub recognize_imm : ℕ → ℕ → Recognized
recognize_imm funct3 funct7 =
    if funct3 == 0b001
    then plain InstrName.slli type_i Executor.slli
    else if funct3 == 0b101
    then (if funct7 == 0b0000000
        then plain InstrName.srli type_i Executor.srli
        else if funct7 == 0b0100000
        then plain InstrName.srai type_i Executor.srai
        else unrecognized)
    else if funct3 == 0b000
    then plain InstrName.addi type_i Executor.addi
    else if funct3 == 0b010
    then plain InstrName.slti type_i Executor.slti
    else if funct3 == 0b011
    then plain InstrName.sltiu type_i Executor.sltiu
    else if funct3 == 0b100
    then plain InstrName.xori type_i Executor.xori
    else if funct3 == 0b110
    then plain InstrName.ori type_i Executor.ori
    else if funct3 == 0b111
    then plain InstrName.andi type_i Executor.andi
    else unrecognized

-- A switch on `funct7` with the one case 0.
abbrev only_zero : ℕ → Recognized → Recognized
only_zero funct7 r = if funct7 == 0b0000000 then r else only_type type_r

-- A switch on `funct7` with the cases 0 and 32.
abbrev zero_or_32 : ℕ → Recognized → Recognized → Recognized
zero_or_32 funct7 r r' =
    if funct7 == 0b0000000 then r else if funct7 == 0b0100000 then r' else only_type type_r

unfoldable pub recognize_reg : ℕ → ℕ → Recognized
recognize_reg funct3 funct7 =
    if funct3 == 0b000
    then zero_or_32 funct7 (plain InstrName.add type_r Executor.add)
        (plain InstrName.sub type_r Executor.sub)
    else if funct3 == 0b001
    then only_zero funct7 (plain InstrName.sll type_r Executor.sll)
    else if funct3 == 0b010
    then only_zero funct7 (plain InstrName.slt type_r Executor.slt)
    else if funct3 == 0b011
    then only_zero funct7 (plain InstrName.sltu type_r Executor.sltu)
    else if funct3 == 0b100
    then only_zero funct7 (plain InstrName.xor type_r Executor.xor)
    else if funct3 == 0b101
    then zero_or_32 funct7 (plain InstrName.srl type_r Executor.srl)
        (plain InstrName.sra type_r Executor.sra)
    else if funct3 == 0b110
    then only_zero funct7 (plain InstrName.or type_r Executor.or)
    else if funct3 == 0b111
    then only_zero funct7 (plain InstrName.and type_r Executor.and)
    else only_type type_r

unfoldable pub recognize : ℕ → ℕ → ℕ → ℕ → Recognized
unfolding recognize_branch recognize_load recognize_store recognize_imm recognize_reg
recognize instr opcode funct3 funct7 =
    if opcode == 0b0110111
    then plain InstrName.lui type_u Executor.lui
    else if opcode == 0b0010111
    then plain InstrName.auipc type_u Executor.auipc
    else if opcode == 0b1101111
    then branching InstrName.jal type_j Executor.jal
    else if opcode == 0b1100111
    then branching InstrName.jalr type_i Executor.jalr
    else if opcode == 0b1100011
    then recognize_branch funct3
    else if opcode == 0b0000011
    then recognize_load funct3
    else if opcode == 0b0100011
    then recognize_store funct3
    else if opcode == 0b0010011
    then recognize_imm funct3 funct7
    else if opcode == 0b0110011
    then recognize_reg funct3 funct7
    else if opcode == 0b1110011
    then (if instr == 0b1110011
        then plain InstrName.ecall type_system Executor.ecall
        else only_type type_system)
    else unrecognized
