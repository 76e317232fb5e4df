-- ===== src/Types.antt =====
-- headers/types.h, headers/PerfSim.h and headers/Stage.h: the enumerations. `RegName` is an unscoped
-- enumeration that the code casts from numbers and indexes vectors by, so it is a number here, with
-- the constants that the code names.
use perf_sim.Base.{ℕ, Bool, true, false}

pub data AccessType : Type 0 where
  access_read access_write access_none : AccessType

pub data InstrType : Type 0 where
  type_r type_i type_s type_b type_u type_j type_system type_none : InstrType

pub data InstrName : Type 0 where
  lui auipc jal jalr beq bne blt bge bltu bgeu : InstrName
  lb lh lw lbu lhu sb sh sw : InstrName
  addi slti sltiu xori ori andi slli srli srai : InstrName
  add sub sll slt sltu xor srl sra or and : InstrName
  fence fence_i ecall ebreak csrrw csrrs csrrc csrrwi csrrsi csrrci no_name : InstrName

pub data PipelineStage : Type 0 where
  stage_execute stage_memory : PipelineStage

pub data ExtendType : Type 0 where
  extend_sign extend_zero : ExtendType

abbrev pub RegName : Type 0
RegName = ℕ

abbrev pub register_name_zero : RegName
register_name_zero = 0

abbrev pub register_name_sp : RegName
register_name_sp = 2

abbrev pub register_name_none : RegName
register_name_none = 32

-- `a == b` on the enumerations.
abbrev pub same_type : InstrType → InstrType → Bool
same_type type_r type_r = true
same_type type_i type_i = true
same_type type_s type_s = true
same_type type_b type_b = true
same_type type_u type_u = true
same_type type_j type_j = true
same_type type_system type_system = true
same_type type_none type_none = true
same_type _ _ = false

abbrev pub same_access : AccessType → AccessType → Bool
same_access access_read access_read = true
same_access access_write access_write = true
same_access access_none access_none = true
same_access _ _ = false
