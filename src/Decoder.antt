-- ===== src/Decoder.antt =====
-- headers/Decoder.h and src/Decoder.cpp. `recognize` gives what the code stores in the members
-- `name`, `type`, `executor`, `mem_acc_type`, `acc_size` and `is_branch`, each of its nested
-- switches being a function.
pub mod Table
pub mod Fields
pub mod Decoded
pub mod Operands
pub mod Stores
pub mod Recognize
unfoldable pub use Recognize.*
use perf_sim.Base.{ℕ, ◌+◌, bit_and, Result, ok, ◌>>=◌, if◌then◌else◌, ◌==◌, ◌>>>◌}
use perf_sim.Types.{
  access_read, access_write, InstrType, type_r, type_i, type_s, type_b, type_u, type_j, type_system,
  type_none, PipelineStage, stage_execute, stage_memory, same_access, RegName,
}
use perf_sim.Instruction.{Register, Instruction, calc_imm, new_instruction}
use perf_sim.RegFile.{is_lock, get_reg}
use perf_sim.Machine.{Machine, get_next, array_base, set_instr}
use perf_sim.HazardUnit

-- The fields of an instruction word.
unfoldable pub field : ℕ → ℕ → ℕ → ℕ
field instr shift mask = bit_and (instr >>> shift) mask

-- `reg.is_lock(num) ? hu.decode(reg.getReg(num), need) : reg.getReg(num)`, which `decode` writes out
-- for each operand.
unfoldable pub operand : Machine → RegName → PipelineStage → Result (Register × Machine)
unfolding is_lock get_reg
operand m num need = do
  lock ← is_lock m.rf num
  r ← get_reg m.rf num access_read
  if lock == 0 then ok (r.0, m) else HazardUnit.decode m r.0 need

-- `reg.getReg(num, ACCESS_TYPE_WRITE)`.
unfoldable pub destination : Machine → RegName → Result (Register × Machine)
destination m num = do r ← get_reg m.rf num access_write; ok (r.0, record m { rf = r.1 })

-- The element that the array of a type gives next, with the array moved on, or a new object.
unfoldable pub next_object : Machine → InstrType → ℕ × Machine
unfolding get_next
next_object m type_r =
    let (p, a) = get_next m.decoder.r_instr_arr in
    (array_base a.size type_r + p, record m { decoder = record m.decoder { r_instr_arr = a } })
next_object m type_i =
    let (p, a) = get_next m.decoder.i_instr_arr in
    (array_base a.size type_i + p, record m { decoder = record m.decoder { i_instr_arr = a } })
next_object m type_s =
    let (p, a) = get_next m.decoder.s_instr_arr in
    (array_base a.size type_s + p, record m { decoder = record m.decoder { s_instr_arr = a } })
next_object m type_b =
    let (p, a) = get_next m.decoder.b_instr_arr in
    (array_base a.size type_b + p, record m { decoder = record m.decoder { b_instr_arr = a } })
next_object m type_u =
    let (p, a) = get_next m.decoder.u_instr_arr in
    (array_base a.size type_u + p, record m { decoder = record m.decoder { u_instr_arr = a } })
next_object m type_j =
    let (p, a) = get_next m.decoder.j_instr_arr in
    (array_base a.size type_j + p, record m { decoder = record m.decoder { j_instr_arr = a } })
next_object m type_system =
    let (p, a) = get_next m.decoder.sys_instr_arr in
    (
      array_base a.size type_system + p,
      record m { decoder = record m.decoder { sys_instr_arr = a } },
    )
next_object m type_none =
    let p = array_base m.config.stages type_none + m.decoder.allocated in
    (
      p,
      set_instr (record m { decoder = record m.decoder { allocated = m.decoder.allocated + 1 } }) p
          new_instruction,
    )

abbrev pub second_need : Recognized → PipelineStage
second_need r = if same_access access_write r.mem_acc_type then stage_memory else stage_execute

-- The switch on the type: the operands that the class has are read into the object `i`.
unfoldable pub operands :
    InstrType
    → Machine
    → Instruction
    → Recognized
    → RegName
    → RegName
    → RegName
    → Result (Instruction × Machine)
operands type_r m i r num_rs1 num_rs2 num_rd = do
  (a, m₁) ← operand m num_rs1 stage_execute
  (b, m₂) ← operand m₁ num_rs2 stage_execute
  (d, m₃) ← destination m₂ num_rd
  ok (record i { rs1 = a; rs2 = b; rd = d }, m₃)
operands type_i m i r num_rs1 num_rs2 num_rd = do
  (a, m₁) ← operand m num_rs1 stage_execute
  (d, m₂) ← destination m₁ num_rd
  ok (record i { acc_size = r.acc_size; rs1 = a; rd = d }, m₂)
operands type_s m i r num_rs1 num_rs2 num_rd = do
  (a, m₁) ← operand m num_rs1 stage_execute
  (b, m₂) ← operand m₁ num_rs2 (second_need r)
  ok (record i { acc_size = r.acc_size; rs1 = a; rs2 = b }, m₂)
operands type_b m i r num_rs1 num_rs2 num_rd = do
  (a, m₁) ← operand m num_rs1 stage_execute
  (b, m₂) ← operand m₁ num_rs2 stage_execute
  ok (record i { rs1 = a; rs2 = b }, m₂)
operands type_u m i r num_rs1 num_rs2 num_rd = do
  (d, m₁) ← destination m num_rd
  ok (record i { rd = d }, m₁)
operands type_j m i r num_rs1 num_rs2 num_rd = do
  (d, m₁) ← destination m num_rd
  ok (record i { rd = d }, m₁)
operands _ m i r num_rs1 num_rs2 num_rd = ok (i, m)

-- The end of `decode`: the fields that every class has.
unfoldable pub finish : Instruction → Recognized → ℕ → ℕ → Instruction
unfolding calc_imm
finish i r opcode instr = record i {
  name = r.name;
  type = r.type;
  main_executor = r.executor;
  opcode = opcode;
  is_branch = r.is_branch;
  mem_acc_type = r.mem_acc_type;
  branch_addr = 0;
  imm = calc_imm r.type i.imm instr;
}

abbrev pub recognize_word : ℕ → Recognized
recognize_word w = recognize w (field w 0 0b1111111) (field w 12 0b0111) (field w 25 0b01111111)

-- The number of the decoded object, and the machine after.
unfoldable pub decode : Machine → ℕ → Result (ℕ × Machine)
unfolding next_object operands finish
decode m w =
    let r = recognize_word w in
    let (p, m') = next_object m r.type in
    do
      (i, m'') ←
          operands r.type m' (m'.instrs p) r (field w 15 0b011111) (field w 20 0b011111)
            (field w 7 0b011111)
      ok (p, set_instr m'' p (finish i r (field w 0 0b1111111) w))
