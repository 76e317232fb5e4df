-- ===== src/Tests/Programs.antt =====
-- Small programs, from the constructor to ECALL.
use perf_sim.Base.{ℕ, ◌≡◌, ◌++◌, refl, some, none, List, [], ◌∷◌, Option, Result, ok, err}
use perf_sim.Instruction.Encoding.{encode_r, encode_i}
use perf_sim.Memory.{Memory, to_bytes}
use perf_sim.Machine.{Machine, default_config, new_machine}
use perf_sim.HazardUnit
use perf_sim.PerfSim.{start, run, cycle, memory_access}
use perf_sim.ElfManager.Laws.{place}

unfoldable pub words : List ℕ → List ℕ
unfolding to_bytes
words [] = []
words (w ∷ ws) = to_bytes 4 w ++ words ws

abbrev pub program : List ℕ → Memory → Result Memory
program ws = place (record { vaddr = 0; content = words ws } ∷ [])

abbrev pub ecall_word : ℕ
ecall_word = 0x73

-- A program is loaded and run, and a register is read at the end.
abbrev run_loaded : Result Machine → Option (Result Machine)
run_loaded (ok m) = run 0 0 20 m
run_loaded (err e) = some (err e)

abbrev reg_after : Option (Result Machine) → ℕ → Option ℕ
reg_after (some (ok m)) r = some (m.rf.regs r).value
reg_after _ r = none

unfoldable final : List ℕ → ℕ → Option ℕ
unfolding start new_machine perf_sim.RegFile.new_reg_file run cycle perf_sim.PerfSim.write_back
    memory_access perf_sim.PerfSim.execute perf_sim.PerfSim.decode perf_sim.PerfSim.fetch
    perf_sim.Memory.read_word perf_sim.Memory.get_bytes perf_sim.PerfSim.tick
    perf_sim.Pipeline.update perf_sim.Decoder.decode perf_sim.Memory.write words
    perf_sim.RegFile.get_reg perf_sim.Memory.write_word perf_sim.RegFile.write
    perf_sim.Decoder.recognize perf_sim.Decoder.field perf_sim.Memory.put_bytes
    perf_sim.Decoder.operand perf_sim.Decoder.destination perf_sim.Executors.execute
    HazardUnit.decode HazardUnit.exit HazardUnit.write perf_sim.Instruction.imm_i
    perf_sim.PerfSim.loaded_value HazardUnit.branch perf_sim.Instruction.imm_j
    perf_sim.Pipeline.search_data perf_sim.PerfSim.sign_extend perf_sim.Pipeline.mask_below
final ws r = reg_after (run_loaded (start default_config (program ws) 0)) r

doubled :
    final
      (encode_i 5 0 0 1 0x13
        ∷ encode_r 0 1 1 0 2 0x33
        ∷ ecall_word
        ∷ 0x13
        ∷ 0x13
        ∷ 0x13
        ∷ 0x13
        ∷ 0x13
        ∷ [])
      2
    ≡ some 10
unfolding final
doubled = refl

-- `lw x1, 32(x0)`, `add x2, x1, x1`: the load, of 7, does not take place.
load_lost :
    final
      (encode_i 32 0 2 1 0x03
        ∷ encode_r 0 1 1 0 2 0x33
        ∷ ecall_word
        ∷ 0x13
        ∷ 0x13
        ∷ 0x13
        ∷ 0x13
        ∷ 0x13
        ∷ 7
        ∷ [])
      1
    ≡ some 0
unfolding final
load_lost = refl

-- With an instruction between the two it does.
load_done :
    final
      (encode_i 32 0 2 1 0x03
        ∷ 0x13
        ∷ encode_r 0 1 1 0 2 0x33
        ∷ ecall_word
        ∷ 0x13
        ∷ 0x13
        ∷ 0x13
        ∷ 0x13
        ∷ 7
        ∷ [])
      2
    ≡ some 14
unfolding final
load_done = refl

-- `addi x5, x0, 9`, a jump over `addi x5, x0, 1`, and ECALL: the instruction that is skipped takes
-- back the 9.
skipped_clobbers :
    final
      (encode_i 9 0 0 5 0x13
        ∷ 0x00c0006f
        ∷ encode_i 1 0 0 5 0x13
        ∷ 0x13
        ∷ encode_i 1 5 0 6 0x13
        ∷ ecall_word
        ∷ 0x13
        ∷ 0x13
        ∷ 0x13
        ∷ [])
      5
    ≡ some 0
unfolding final
skipped_clobbers = refl
