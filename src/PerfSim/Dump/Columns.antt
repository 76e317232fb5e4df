-- ===== src/PerfSim/Dump/Columns.antt =====
-- What the columns of a trace line hold: the pieces of `dumpInstruction` of src/PerfSim.cpp.
use mathlib.Core.List.{append_assoc}
use perf_sim.Base.{
  ℕ, ◌-◌, ◌≡◌, refl, ap, ◌∙◌, true, some, ◌++◌, arith, Result, ok, ◌>>=◌, leb, length, replicate,
}
use perf_sim.Base.Text.{Text, codes, spaces_upto, to_string_int}
use perf_sim.Base.Digits.{length-hex_digits}
use perf_sim.Types.{InstrType, InstrName, RegName}
use perf_sim.Instruction.{Register, Instruction}
use perf_sim.Log.{Logger, ◌<<◌}
use perf_sim.PerfSim.Names.{get_reg_name, get_instr_name}
use perf_sim.PerfSim.Dump.{
  int_to_hex, register_column, rs1_column, rs2_column, rd_column, hex_column, imm_column,
}

-- A logger with an open file of the given contents.
abbrev pub opened : Logger → Text → Logger
opened l w = record l { stream = some (record { is_open = true; written = w }) }

-- A call that returns has written the text, behind what the file held.
abbrev pub Writes : (Logger → Result Logger) → Text → Type 0
Writes f t = (l : Logger) (w : Text) → f (opened l w) ≡ ok (opened l (w ++ t))

length-get_reg_name : (n : RegName) → leb (length (get_reg_name n)) 12 ≡ true
unfolding get_reg_name
length-get_reg_name n = ground arith

pub length-get_instr_name : (n : InstrName) → leb (length (get_instr_name n)) 12 ≡ true
unfolding get_instr_name
length-get_instr_name InstrName.lui = refl
length-get_instr_name _ = refl

pub length-int_to_hex : (v : ℕ) → length (int_to_hex v) ≡ 10
unfolding int_to_hex
length-int_to_hex v = omega (arith, length-hex_digits 8 v)

pub print-Writes : (t : Text) → Writes (λ l. ok l << t) t
unfolding ◌<<◌
print-Writes t l w = refl

pub then-Writes :
    (f g : Logger → Result Logger) (s t : Text)
    → Writes f s
    → Writes g t
    → Writes (λ l. f l >>= g) (s ++ t)
then-Writes f g s t hf hg l w =
    rw (hf l w) (hg l (w ++ s) ∙ ap (λ (x : Text). ok (opened l x)) (append_assoc w s t))

pub spaces_upto-length : (n : ℕ) → leb n 12 ≡ true → spaces_upto 12 n ≡ ok (replicate (12 - n) b' ')
unfolding spaces_upto
spaces_upto-length n h = rw h

-- A register of the trace: its label, its name filled up to 12 characters, and its value.
abbrev pub register_text : Text → Register → Text
register_text label r =
    label
    ++ (get_reg_name r.name
        ++ (replicate (12 - length (get_reg_name r.name)) b' '
            ++ (codes " (" ++ (to_string_int r.value ++ codes ")"))))

register_column-Writes :
    (label : Text) (r : Register) → Writes (λ l. register_column l label r) (register_text label r)
unfolding register_column ◌<<◌
register_column-Writes label r l w =
    rw (spaces_upto-length (length (get_reg_name r.name)) (length-get_reg_name r.name))
      (simp append_assoc)

abbrev pub hex_text : ℕ → Text
hex_text v = codes "imm " ++ (int_to_hex v ++ replicate 2 b' ')

hex_column-Writes : (v : ℕ) → Writes (λ l. hex_column l v) (hex_text v)
unfolding hex_column ◌<<◌
hex_column-Writes v l w =
    rw (length-int_to_hex v) (rw (spaces_upto-length 10 refl) (simp append_assoc))

abbrev pub rs1_text : InstrType → Instruction → Text
rs1_text InstrType.type_r i = register_text (codes "rs1 ") i.rs1
rs1_text InstrType.type_i i = register_text (codes "rs1 ") i.rs1
rs1_text InstrType.type_s i = register_text (codes "rs1 ") i.rs1
rs1_text InstrType.type_b i = register_text (codes "rs1 ") i.rs1
rs1_text _ i = replicate 16 b' '

abbrev pub rs2_text : InstrType → Instruction → Text
rs2_text InstrType.type_r i = register_text (codes "rs2 ") i.rs2
rs2_text InstrType.type_s i = register_text (codes "rs2 ") i.rs2
rs2_text InstrType.type_b i = register_text (codes "rs2 ") i.rs2
rs2_text _ i = replicate 16 b' '

abbrev pub rd_text : InstrType → Instruction → Text
rd_text InstrType.type_r i = register_text (codes "rd ") i.rd
rd_text InstrType.type_i i = register_text (codes "rd ") i.rd
rd_text InstrType.type_u i = register_text (codes "rd ") i.rd
rd_text InstrType.type_j i = register_text (codes "rd ") i.rd
rd_text _ i = replicate 15 b' '

abbrev pub imm_text : InstrType → Instruction → Text
imm_text InstrType.type_i i = hex_text i.imm
imm_text InstrType.type_s i = hex_text i.imm
imm_text InstrType.type_b i = hex_text i.imm
imm_text InstrType.type_u i = hex_text i.imm
imm_text InstrType.type_j i = hex_text i.imm
imm_text _ i = replicate 16 b' '

pub rs1_column-Writes :
    (t : InstrType) (i : Instruction) → i.type ≡ t → Writes (λ l. rs1_column l i) (rs1_text t i)
unfolding rs1_column
rs1_column-Writes InstrType.type_r i e l w = rw e (register_column-Writes (codes "rs1 ") i.rs1 l w)
rs1_column-Writes InstrType.type_i i e l w = rw e (register_column-Writes (codes "rs1 ") i.rs1 l w)
rs1_column-Writes InstrType.type_s i e l w = rw e (register_column-Writes (codes "rs1 ") i.rs1 l w)
rs1_column-Writes InstrType.type_b i e l w = rw e (register_column-Writes (codes "rs1 ") i.rs1 l w)
rs1_column-Writes _ i e l w = rw e refl

pub rs2_column-Writes :
    (t : InstrType) (i : Instruction) → i.type ≡ t → Writes (λ l. rs2_column l i) (rs2_text t i)
unfolding rs2_column
rs2_column-Writes InstrType.type_r i e l w = rw e (register_column-Writes (codes "rs2 ") i.rs2 l w)
rs2_column-Writes InstrType.type_s i e l w = rw e (register_column-Writes (codes "rs2 ") i.rs2 l w)
rs2_column-Writes InstrType.type_b i e l w = rw e (register_column-Writes (codes "rs2 ") i.rs2 l w)
rs2_column-Writes _ i e l w = rw e refl

pub rd_column-Writes :
    (t : InstrType) (i : Instruction) → i.type ≡ t → Writes (λ l. rd_column l i) (rd_text t i)
unfolding rd_column
rd_column-Writes InstrType.type_r i e l w = rw e (register_column-Writes (codes "rd ") i.rd l w)
rd_column-Writes InstrType.type_i i e l w = rw e (register_column-Writes (codes "rd ") i.rd l w)
rd_column-Writes InstrType.type_u i e l w = rw e (register_column-Writes (codes "rd ") i.rd l w)
rd_column-Writes InstrType.type_j i e l w = rw e (register_column-Writes (codes "rd ") i.rd l w)
rd_column-Writes _ i e l w = rw e refl

pub imm_column-Writes :
    (t : InstrType) (i : Instruction) → i.type ≡ t → Writes (λ l. imm_column l i) (imm_text t i)
unfolding imm_column
imm_column-Writes InstrType.type_i i e l w = rw e (hex_column-Writes i.imm l w)
imm_column-Writes InstrType.type_s i e l w = rw e (hex_column-Writes i.imm l w)
imm_column-Writes InstrType.type_b i e l w = rw e (hex_column-Writes i.imm l w)
imm_column-Writes InstrType.type_u i e l w = rw e (hex_column-Writes i.imm l w)
imm_column-Writes InstrType.type_j i e l w = rw e (hex_column-Writes i.imm l w)
imm_column-Writes _ i e l w = rw e refl
