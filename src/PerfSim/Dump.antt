-- ===== src/PerfSim/Dump.antt =====
-- What src/PerfSim.cpp and src/HazardUnit.cpp print: `intToHex`, `dumpInstruction`, which writes the
-- trace, and the two functions `dump`, which write the log. The measured time is an argument, and so is
-- `kips`, the text of the quotient of two doubles.
pub mod Columns
pub mod Lines
use perf_sim.Base.{
  ℕ, ◌*◌, not, ◌||◌, List, [], ◌∷◌, ◌++◌, Result, ok, ◌>>=◌, if◌then◌else◌, u64, length, replicate,
}
use perf_sim.Base.Text.{Text, codes, same_text, spaces_upto, hex_digits, to_string, to_string_int}
use perf_sim.Types.{type_r, type_i, type_s, type_b, type_u, type_j, same_type}
use perf_sim.Instruction.{Register, Instruction, get_rs1, get_rs2, get_rd, get_imm}
use perf_sim.Log.{Logger, endl, ◌<<◌}
use perf_sim.Machine.{HazardUnit, Machine}
use perf_sim.PerfSim.Names.{get_reg_name, get_instr_name}

unfoldable pub int_to_hex : ℕ → Text
int_to_hex i = codes "0x" ++ hex_digits 8 i

-- A register with its name and value.
unfoldable pub register_column : Logger → Text → Register → Result Logger
unfolding ◌<<◌
register_column trace label r = do
  str ← spaces_upto 12 (length (get_reg_name r.name))
  ok trace
      << label
      << get_reg_name r.name
      << str
      << codes " ("
      << to_string_int r.value
      << codes ")"

unfoldable pub blank_column : Logger → ℕ → Result Logger
unfolding ◌<<◌
blank_column trace n = ok trace << replicate n b' '

unfoldable pub rs1_column : Logger → Instruction → Result Logger
unfolding register_column blank_column get_rs1
rs1_column trace i =
    let t = i.type in
    if same_type t type_r || same_type t type_i || same_type t type_s || same_type t type_b
    then (get_rs1 i >>= register_column trace (codes "rs1 "))
    else blank_column trace 16

unfoldable pub rs2_column : Logger → Instruction → Result Logger
unfolding register_column blank_column get_rs2
rs2_column trace i =
    let t = i.type in
    if same_type t type_r || same_type t type_s || same_type t type_b
    then (get_rs2 i >>= register_column trace (codes "rs2 "))
    else blank_column trace 16

unfoldable pub rd_column : Logger → Instruction → Result Logger
unfolding register_column blank_column get_rd
rd_column trace i =
    let t = i.type in
    if same_type t type_r || same_type t type_i || same_type t type_u || same_type t type_j
    then (get_rd i >>= register_column trace (codes "rd "))
    else blank_column trace 15

unfoldable pub hex_column : Logger → ℕ → Result Logger
unfolding ◌<<◌ int_to_hex
hex_column trace imm = do
  str ← spaces_upto 12 (length (int_to_hex imm))
  ok trace << codes "imm " << int_to_hex imm << str

unfoldable pub imm_column : Logger → Instruction → Result Logger
unfolding hex_column blank_column get_imm
imm_column trace i =
    let t = i.type in
    if same_type t type_i
      || same_type t type_s
      || same_type t type_b
      || same_type t type_u
      || same_type t type_j
    then (get_imm i >>= hex_column trace)
    else blank_column trace 16

-- The line of the address, and the line of the instruction.
unfoldable pub dump_named : Logger → Instruction → Text → Text → Result Logger
unfolding ◌<<◌ endl int_to_hex rs1_column rs2_column rd_column imm_column
dump_named trace i str_pc str_name = do
  trace₁ ← ok trace << to_string i.pc
  trace₂ ← endl trace₁
  trace₃ ← ok trace₂ << int_to_hex i.pc << str_pc << get_instr_name i.name << str_name
  trace₄ ← rs1_column trace₃ i
  trace₅ ← rs2_column trace₄ i
  trace₆ ← rd_column trace₅ i
  trace₇ ← imm_column trace₆ i
  endl trace₇

unfoldable pub dump_instruction : Logger → Instruction → Result Logger
unfolding dump_named int_to_hex
dump_instruction trace i = do
  str_pc ← spaces_upto 12 (length (int_to_hex i.pc))
  str_name ← spaces_upto 12 (length (get_instr_name i.name))
  if not (same_text (get_instr_name i.name) (codes "NONE"))
      then dump_named trace i str_pc str_name
      else ok trace

-- The calls that `writeBack` makes in a run, given what retired, the latest first.
unfoldable pub dump_trace : Logger → List Instruction → Result Logger
unfolding dump_instruction
dump_trace trace [] = ok trace
dump_trace trace (i ∷ earlier) = dump_trace trace earlier >>= λ t. dump_instruction t i

-- One line of the log.
unfoldable pub log_line : Logger → Text → Text → Result Logger
unfolding ◌<<◌ endl
log_line log label value = ok log << label << value >>= endl

unfoldable pub dump_hazards : Logger → HazardUnit → Result Logger
dump_hazards log hu = do
  log₁ ← log_line log (codes "bypasses_wb_ex: ") (to_string hu.bypasses_wb_ex)
  log₂ ← log_line log₁ (codes "bypasses_mem_ex: ") (to_string hu.bypasses_mem_ex)
  log₃ ← log_line log₂ (codes "pipeline stops: ") (to_string hu.stops)
  log_line log₃ (codes "branches: ") (to_string hu.branches)

unfoldable pub dump : (ℕ → ℕ → Text) → ℕ → Logger → Machine → Result Logger
dump kips execution_time log m = do
  log₁ ← log_line log (codes "ic : ") (to_string m.ic)
  log₂ ← log_line log₁ (codes "clocks : ") (to_string m.clocks)
  log₃ ← log_line log₂ (codes "execution time :") (to_string execution_time ++ codes "ns")
  log₄ ← log_line log₃ (codes "KIPS : ") (kips (u64 (m.ic * 1000000)) execution_time)
  dump_hazards log₄ m.hu
