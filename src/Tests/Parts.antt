-- ===== src/Tests/Parts.antt =====
-- The theorems about the single components at concrete inputs.
pub mod Codes
pub mod Decoding
use perf_sim.Base.{
  ℕ, ◌+◌, ◌-◌, ◌*◌, ◌/◌, ◌%◌, ◌^◌, ◌<◌, ◌≤◌, ◌≡◌, ◌≢◌, ◌↔◌, refl, inr, true, some, [], bit_and,
  bit_xor, arith, ok, err, num_regs_error, out_of_memory, undefined, signed32, sub32, u32, sext64,
  ◌>>=◌,
}
use perf_sim.Base.Int.{◌+ℤ◌, ◌-ℤ◌, ◌<ℤ◌, ◌≤ℤ◌}
use perf_sim.Types.{InstrType, type_i, type_r, type_b, type_s, access_read, access_write}
use perf_sim.Instruction.{Executor, Instruction, new_instruction}
use perf_sim.Executors.{
  add, sub, slt, sltu, slli, srli, srai, sll, srl, sra, xori, andi, beq, bne, blt, bge, bltu, bgeu,
  execute,
}
use perf_sim.Executors.Arithmetic.{
  with_rd, Puts, Congruent, Flags, add-sub-Congruent, slt-sltu-Flags, xori-andi-swapped,
}
use perf_sim.Executors.Arithmetic.Shifts.{IsFloor, shift_imm-Puts, shift-Puts}
use perf_sim.Executors.Branches.{Decides, branches-Decide}
use perf_sim.Executors.Frame.{execute-frame, frame}
use perf_sim.Stage.{Stage, extend}
use perf_sim.Stage.Update.{updates, extend-updates}
use perf_sim.Memory.{Memory, write_word, read_word, fits}
use perf_sim.Memory.Laws.{read_word-write_word, out_of_memory_lem, wrapped_access_undefined}
use perf_sim.RegFile.{RegFile, new_reg_file, get_reg}
use perf_sim.RegFile
use perf_sim.RegFile.Laws.{write-get_reg, write_refused}
use perf_sim.Pipeline.{push, search_data, new_pipeline, cleared_store}
use perf_sim.Pipeline
use perf_sim.Pipeline.Queue.{update-push, search_data-IsEmpty}

abbrev minus_two : ℕ
minus_two = 2 ^ 32 - 2

abbrev imm_three : ℕ
imm_three = 3

-- An object with the operands -2 and 5.
abbrev pub object : InstrType → Instruction
object t = record new_instruction {
  type = t;
  rs1 = record { value = minus_two; name = 1 };
  rs2 = record { value = 5; name = 2 };
  rd = record { value = 0; name = 3 };
  imm = 3;
  is_branch = true;
}

add-sub-Congruent_example :
    Puts
      (add (object type_r))
      (object type_r)
      (λ v. Congruent (signed32 v) (signed32 minus_two +ℤ signed32 5))
    × Puts
        (sub (object type_r))
        (object type_r)
        (λ v. Congruent (signed32 v) (signed32 minus_two -ℤ signed32 5))
add-sub-Congruent_example = add-sub-Congruent (object type_r) refl (omega arith) (omega arith)

slt-sltu-Flags_example :
    Puts (slt (object type_r)) (object type_r) (λ v. Flags v (signed32 minus_two <ℤ signed32 5))
    × Puts (sltu (object type_r)) (object type_r) (λ v. Flags v (minus_two < 5))
slt-sltu-Flags_example = slt-sltu-Flags (object type_r) refl

shift_imm-Puts_example :
    Puts (slli (object type_i)) (object type_i) (λ v. v ≡ minus_two * 2 ^ 3 % 2 ^ 32)
    × Puts (srli (object type_i)) (object type_i) (λ v. v ≡ minus_two / 2 ^ 3)
    × Puts (srai (object type_i)) (object type_i) (λ v. IsFloor (signed32 minus_two) 3 (signed32 v))
shift_imm-Puts_example = shift_imm-Puts (object type_i) refl (omega arith)

shift-Puts_example :
    Puts (sll (object type_r)) (object type_r) (λ v. v ≡ minus_two * 2 ^ 5 % 2 ^ 32)
    × Puts (srl (object type_r)) (object type_r) (λ v. v ≡ minus_two / 2 ^ 5)
    × Puts (sra (object type_r)) (object type_r) (λ v. IsFloor (signed32 minus_two) 5 (signed32 v))
shift-Puts_example = shift-Puts (object type_r) refl (omega arith) (omega arith)

xori-andi-swapped_example :
    (xori (object type_i) ≡ ok (with_rd (object type_i) (bit_and minus_two 3)))
    × (andi (object type_i) ≡ ok (with_rd (object type_i) (bit_xor minus_two 3)))
    × (xori (object type_i) ≡ ok (with_rd (object type_i) (bit_xor minus_two 3))
        ↔ (minus_two ≡ 0) × (imm_three ≡ 0))
    × (andi (object type_i) ≡ ok (with_rd (object type_i) (bit_and minus_two 3))
        ↔ (minus_two ≡ 0) × (imm_three ≡ 0))
xori-andi-swapped_example = xori-andi-swapped (object type_i) refl

branches-Decide_example :
    Decides (beq (object type_b)) (object type_b) (minus_two ≡ 5)
    × Decides (bne (object type_b)) (object type_b) (minus_two ≢ 5)
    × Decides (blt (object type_b)) (object type_b) (signed32 minus_two <ℤ signed32 5)
    × Decides (bge (object type_b)) (object type_b) (signed32 5 ≤ℤ signed32 minus_two)
    × Decides (bltu (object type_b)) (object type_b) (minus_two < 5)
    × Decides (bgeu (object type_b)) (object type_b) (5 ≤ minus_two)
branches-Decide_example = branches-Decide (object type_b) refl refl

-- An ADD that has been decoded, and what it becomes.
abbrev ready_add : Instruction
ready_add = record (object type_r) { main_executor = some Executor.add }

ready_add-runs : execute ready_add ≡ ok (with_rd ready_add 3)
unfolding execute
ready_add-runs = refl

execute-frame_example : frame (with_rd ready_add 3) ≡ frame ready_add
execute-frame_example = execute-frame ready_add (with_rd ready_add 3) ready_add-runs

abbrev small_memory : Memory
small_memory = record { size = 64; memory = λ a. a }

read_word-write_word_example :
    (m' : Memory) × (write_word small_memory 0x12345 8 2 ≡ ok m')
    × (read_word m' 0x77777777 8 2 ≡ ok (0x12345 % 256 ^ 2 + 0x77777777 / 256 ^ 2 * 256 ^ 2))
    × (m'.size ≡ 64)
    × (m'.memory 10 ≡ 10)
read_word-write_word_example =
    read_word-write_word small_memory 0x12345 0x77777777 8 2 10 (omega arith)
      (record { inside = omega arith; small = omega arith }) (inr (omega arith))

out_of_memory_lem_example :
    (write_word small_memory 7 62 4 ≡ err out_of_memory)
    × (read_word small_memory 0 62 4 ≡ err out_of_memory)
out_of_memory_lem_example =
    out_of_memory_lem small_memory 7 0 62 4 (omega arith) (omega arith) (omega arith)

-- The word at -2: its last bytes would be those at 0.
wrapped_access_undefined_example :
    (fits small_memory (2 ^ 64 - 2) 4 ≡ true)
    × (write_word small_memory 7 (2 ^ 64 - 2) 4 ≡ err undefined)
    × (read_word small_memory 0 (2 ^ 64 - 2) 4 ≡ err undefined)
wrapped_access_undefined_example =
    wrapped_access_undefined small_memory 7 0 (2 ^ 64 - 2) 4 (omega arith) (omega arith)
      (omega arith) (omega arith) (omega arith)

write-get_reg_example :
    (claimed written : RegFile) × (get_reg (new_reg_file 32) 5 access_write
      ≡ ok ((new_reg_file 32).regs 5, claimed))
    × (claimed.reg_locker 5 ≡ sub32 ((new_reg_file 32).reg_locker 5) 1)
    × (RegFile.write claimed (record { value = 9; name = 5 }) ≡ ok written)
    × (written.regs 5 ≡ record { value = 9; name = 5 })
    × (written.reg_locker 5 ≡ (new_reg_file 32).reg_locker 5)
    × (written.regs 6 ≡ (new_reg_file 32).regs 6)
    × (written.reg_locker 6 ≡ (new_reg_file 32).reg_locker 6)
unfolding new_reg_file
write-get_reg_example =
    write-get_reg (new_reg_file 32) 5 6 9 (omega arith) (omega arith) (omega arith) (omega arith)

write_refused_example :
    (get_reg (new_reg_file 32) 0 access_write ≡ ok ((new_reg_file 32).regs 0, new_reg_file 32))
    × (RegFile.write (new_reg_file 32) (record { value = 9; name = 0 }) ≡ ok (new_reg_file 32))
    × (RegFile.write (new_reg_file 32) (record { value = 9; name = 33 }) ≡ err num_regs_error)
    × (RegFile.write (new_reg_file 32) (record { value = 9; name = 32 }) ≡ err undefined)
unfolding new_reg_file
write_refused_example = write_refused (new_reg_file 32) 9 33 (omega arith) (omega arith)

abbrev two_words : Stage ℕ
two_words = record { store = 7; load = 8; stop_count = 0 }

extend-updates_example :
    (updates 2 0 (extend two_words 5) ≡ record { store = 7; load = 8; stop_count = 3 })
    × (updates 6 0 (extend two_words 5) ≡ record { store = 0; load = 7; stop_count = 0 })
extend-updates_example = extend-updates 5 2 0 two_words refl (omega arith) (omega arith)

-- SW and LW of the word at 8.
abbrev store_word : Instruction
store_word = record (object type_s) { mem_acc_type = access_write; acc_addr = 8; acc_size = 4 }

abbrev load_word : Instruction
load_word = record (object type_i) { mem_acc_type = access_read; acc_addr = 8; acc_size = 4 }

update-push_example : (push 0 new_pipeline store_word >>= λ q. Pipeline.update q small_memory) ≡ (
    write_word small_memory 5 (sext64 8) (sext64 4) >>= λ m.
    ok (record { id = u32 1; store = cleared_store; queue = [] }, m))
update-push_example =
    update-push 0 new_pipeline small_memory store_word refl refl refl (omega arith)

search_data-IsEmpty_example :
    search_data 0 99 new_pipeline small_memory load_word
    ≡ (read_word small_memory 99 (sext64 8) (sext64 4) >>= λ d. ok (d % 2 ^ 32))
search_data-IsEmpty_example =
    search_data-IsEmpty 0 99 new_pipeline small_memory load_word refl refl refl
