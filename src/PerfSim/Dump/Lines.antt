-- ===== src/PerfSim/Dump/Lines.antt =====
-- The lines that `dumpInstruction` of src/PerfSim.cpp writes to the trace.
use mathlib.Core.List.{append_assoc, append-nil}
use perf_sim.Base.{
  ◌==◌, ◌-◌, ◌≡◌, ◌≢◌, refl, sym, ap, ◌∙◌, Bool, true, false, List, [], ◌∷◌, ◌++◌, arith, ok,
  if◌then◌else◌, length, length-append, take, drop, take-append, drop-append, replicate, IsWord,
}
use perf_sim.Base.Text.{Text, codes, same_text, hex_digits, to_string}
use perf_sim.Base.Digits.{value_from, value-decimal, value-hex_digits, length-hex_digits}
use perf_sim.Types.{InstrName, no_name}
use perf_sim.Instruction.{Instruction}
use perf_sim.Log.{Logger, ◌<<◌, endl, print}
use perf_sim.PerfSim.Names.{get_instr_name}
use perf_sim.PerfSim.Dump.{int_to_hex, dump_named, dump_instruction, dump_trace}
use perf_sim.PerfSim.Dump.Columns.{
  opened, Writes, rs1_text, rs2_text, rd_text, imm_text, rs1_column-Writes, rs2_column-Writes,
  rd_column-Writes, imm_column-Writes, length-int_to_hex, length-get_instr_name, spaces_upto-length,
}

-- A printed instruction: the address in decimal on a line, and the line of the instruction.
abbrev pub body : Instruction → Text
body i =
    int_to_hex i.pc
    ++ (replicate 2 b' '
        ++ (get_instr_name i.name
            ++ (replicate (12 - length (get_instr_name i.name)) b' '
                ++ (rs1_text i.type i
                    ++ (rs2_text i.type i
                        ++ (rd_text i.type i ++ (imm_text i.type i ++ b'\n' ∷ [])))))))

abbrev pub entry : Instruction → Text
entry i = to_string i.pc ++ (b'\n' ∷ body i)

endl-Writes : Writes endl (b'\n' ∷ [])
unfolding endl print
endl-Writes l w = refl

dump_named-Writes :
    (i : Instruction) (s t : Text)
    → Writes
        (λ l. dump_named l i s t)
        (to_string i.pc
          ++ (b'\n'
              ∷ (int_to_hex i.pc
                  ++ (s
                      ++ (get_instr_name i.name
                          ++ (t
                              ++ (rs1_text i.type i
                                  ++ (rs2_text i.type i
                                      ++ (rd_text i.type i
                                          ++ (imm_text i.type i ++ b'\n' ∷ []))))))))))
unfolding dump_named ◌<<◌
dump_named-Writes i s t l w = rw (rs1_column-Writes i.type i refl l _) (
    rw (rs2_column-Writes i.type i refl l _) (
      rw (rd_column-Writes i.type i refl l _)
        (rw (imm_column-Writes i.type i refl l _) (simp append_assoc))))

name-none : (n : InstrName) → n ≢ no_name → same_text (get_instr_name n) (codes "NONE") ≡ false
unfolding get_instr_name
name-none InstrName.no_name h = absurd (h refl)
name-none _ h = refl

dump_instruction-Writes :
    (i : Instruction) → i.name ≢ no_name → Writes (λ l. dump_instruction l i) (entry i)
unfolding dump_instruction
dump_instruction-Writes i named l w =
    rw
      (
        length-int_to_hex i.pc,
        spaces_upto-length 10 refl,
        spaces_upto-length (length (get_instr_name i.name)) (length-get_instr_name i.name),
        name-none i.name named,
      )
      (dump_named-Writes i (replicate 2 b' ') (replicate (12 - length (get_instr_name i.name)) b' ')
        l w)

dump_instruction-unnamed :
    (i : Instruction) (l : Logger) → i.name ≡ no_name → dump_instruction l i ≡ ok l
unfolding dump_instruction get_instr_name
dump_instruction-unnamed i l e =
    rw (length-int_to_hex i.pc, spaces_upto-length 10 refl, e, spaces_upto-length 4 refl)

-- What a list of retired instructions leaves in the trace, the latest of them first.
abbrev pub is_named : InstrName → Bool
is_named InstrName.no_name = false
is_named _ = true

abbrev pub entries : List Instruction → Text
entries [] = []
entries (i ∷ earlier) = entries earlier ++ (if is_named i.name then entry i else [])

entry_if :
    (i : Instruction) (n : InstrName)
    → i.name ≡ n
    → Writes (λ l. dump_instruction l i) (if is_named n then entry i else [])
entry_if i InstrName.no_name e l w =
    dump_instruction-unnamed i (opened l w) e
    ∙ ap (λ (x : Text). ok (opened l x)) (sym (append-nil w))
entry_if i _ e l w = dump_instruction-Writes i (rw e (cc)) l w

-- The trace gets the entries of the retired instructions, in the order in which they retired.
pub dump_trace-Writes :
    (l : Logger) (w : Text) (retired : List Instruction)
    → dump_trace (opened l w) retired ≡ ok (opened l (w ++ entries retired))
unfolding dump_trace
dump_trace-Writes l w [] = ap (λ (x : Text). ok (opened l x)) (sym (append-nil w))
dump_trace-Writes l w (i ∷ earlier) = rw (dump_trace-Writes l w earlier) (
    entry_if i i.name refl l (w ++ entries earlier)
    ∙ ap (λ (x : Text). ok (opened l x)) (append_assoc w (entries earlier) _))

-- The name that a column of 12 characters holds.
abbrev padded : InstrName → Text
padded n = get_instr_name n ++ replicate (12 - length (get_instr_name n)) b' '

-- The mnemonics of the instruction set manual, in capitals, FENCE.I with an underscore.
abbrev pub mnemonics : List (Text × InstrName)
mnemonics =
    (codes "LUI", InstrName.lui)
    ∷ (codes "AUIPC", InstrName.auipc)
    ∷ (codes "JAL", InstrName.jal)
    ∷ (codes "JALR", InstrName.jalr)
    ∷ (codes "BEQ", InstrName.beq)
    ∷ (codes "BNE", InstrName.bne)
    ∷ (codes "BLT", InstrName.blt)
    ∷ (codes "BGE", InstrName.bge)
    ∷ (codes "BLTU", InstrName.bltu)
    ∷ (codes "BGEU", InstrName.bgeu)
    ∷ (codes "LB", InstrName.lb)
    ∷ (codes "LH", InstrName.lh)
    ∷ (codes "LW", InstrName.lw)
    ∷ (codes "LBU", InstrName.lbu)
    ∷ (codes "LHU", InstrName.lhu)
    ∷ (codes "SB", InstrName.sb)
    ∷ (codes "SH", InstrName.sh)
    ∷ (codes "SW", InstrName.sw)
    ∷ (codes "ADDI", InstrName.addi)
    ∷ (codes "SLTI", InstrName.slti)
    ∷ (codes "SLTIU", InstrName.sltiu)
    ∷ (codes "XORI", InstrName.xori)
    ∷ (codes "ORI", InstrName.ori)
    ∷ (codes "ANDI", InstrName.andi)
    ∷ (codes "SLLI", InstrName.slli)
    ∷ (codes "SRLI", InstrName.srli)
    ∷ (codes "SRAI", InstrName.srai)
    ∷ (codes "ADD", InstrName.add)
    ∷ (codes "SUB", InstrName.sub)
    ∷ (codes "SLL", InstrName.sll)
    ∷ (codes "SLT", InstrName.slt)
    ∷ (codes "SLTU", InstrName.sltu)
    ∷ (codes "XOR", InstrName.xor)
    ∷ (codes "SRL", InstrName.srl)
    ∷ (codes "SRA", InstrName.sra)
    ∷ (codes "OR", InstrName.or)
    ∷ (codes "AND", InstrName.and)
    ∷ (codes "FENCE", InstrName.fence)
    ∷ (codes "FENCE_I", InstrName.fence_i)
    ∷ (codes "ECALL", InstrName.ecall)
    ∷ (codes "EBREAK", InstrName.ebreak)
    ∷ (codes "CSRRW", InstrName.csrrw)
    ∷ (codes "CSRRS", InstrName.csrrs)
    ∷ (codes "CSRRC", InstrName.csrrc)
    ∷ (codes "CSRRWI", InstrName.csrrwi)
    ∷ (codes "CSRRSI", InstrName.csrrsi)
    ∷ (codes "CSRRCI", InstrName.csrrci)
    ∷ []

abbrev until_space : Text → Text
until_space [] = []
until_space (c ∷ t) = let rest = until_space t in if c == b' ' then [] else c ∷ rest

named : Text → List (Text × InstrName) → InstrName
named t [] = no_name
named t ((s, n) ∷ rest) = let other = named t rest in if same_text t s then n else other

-- The instruction whose mnemonic stands at the head of a text.
pub name_of : Text → InstrName
unfolding named
name_of t = named (until_space t) mnemonics

name_of-padded : (n : InstrName) → name_of (padded n) ≡ n
unfolding name_of named get_instr_name
name_of-padded InstrName.lui = refl
name_of-padded _ = refl

rest_of : Instruction → Text
rest_of i =
    rs1_text i.type i
    ++ (rs2_text i.type i ++ (rd_text i.type i ++ (imm_text i.type i ++ b'\n' ∷ [])))

body-columns :
    (i : Instruction)
    → body i ≡ (int_to_hex i.pc ++ replicate 2 b' ') ++ (padded i.name ++ rest_of i)
unfolding rest_of
body-columns i = simp append_assoc

length-padded : (n : InstrName) → length (padded n) ≡ 12
unfolding get_instr_name
length-padded InstrName.lui = refl
length-padded _ = refl

address_column : (i : Instruction) → take 8 (drop 2 (body i)) ≡ hex_digits 8 i.pc
unfolding int_to_hex
address_column i = take-append 8 (hex_digits 8 i.pc) _ (length-hex_digits 8 i.pc)

name_column : (i : Instruction) → take 12 (drop 12 (body i)) ≡ padded i.name
name_column i = rw (body-columns i) (
    rw
      (drop-append 12 (int_to_hex i.pc ++ replicate 2 b' ') (padded i.name ++ rest_of i) (
        omega
          (arith, length-append {0} (int_to_hex i.pc) (replicate 2 b' '), length-int_to_hex i.pc)))
      (take-append 12 (padded i.name) (rest_of i) (length-padded i.name)))

-- For an instruction with a name other than NONE and an address of 32 bits, dumpInstruction on an
-- open trace appends the address in decimal, a line end and a line, where the address read back
-- from the decimal, the address read back from the hexadecimal column of the line, and the
-- instruction that has the mnemonic of the third column in a list of the manual's mnemonics are
-- those of the instruction.
pub dump_instruction_lem :
    (l : Logger) (w : Text) (i : Instruction)
    → IsWord i.pc
    → i.name ≢ no_name
    → (line : Text) × (dump_instruction (opened l w) i
        ≡ ok (opened l (w ++ (to_string i.pc ++ (b'\n' ∷ line)))))
      × (value_from 10 0 (to_string i.pc) ≡ i.pc)
      × (value_from 16 0 (take 8 (drop 2 line)) ≡ i.pc)
      × (name_of (take 12 (drop 12 line)) ≡ i.name)
unfolding to_string
dump_instruction_lem l w i word named = (
  body i,
  dump_instruction-Writes i named l w,
  value-decimal 20 i.pc (omega arith),
  rw (address_column i) (value-hex_digits 8 i.pc (omega arith)),
  rw (name_column i) (name_of-padded i.name),
)
