-- ===== src/Tests/Files.antt =====
-- The theorems about the files and about whole runs, at concrete ones.
use perf_sim.Base.{
  ℕ, ◌≡◌, ◌≢◌, ◌-◌, refl, true, false, none, some, List, [], ◌∷◌, ◌++◌, arith, ok, err, ◌>>=◌,
}
use perf_sim.Base.Text.{Text, codes, to_string}
use perf_sim.Base.Digits.{value_from}
use perf_sim.Base.{take, drop, length}
use perf_sim.Types.{InstrName, type_i, type_s, access_read, access_write}
use perf_sim.Instruction.{Instruction, new_instruction}
use perf_sim.Instruction.Encoding.{encode_r, encode_i}
use perf_sim.Log.{new_logger, open_file, close_file}
use perf_sim.Log.Laws.{open_file-print, print_all, file}
use perf_sim.Memory.{Memory}
use perf_sim.Base.{no_phdr}
use perf_sim.ElfManager.{ElfFile, class_32, load}
use perf_sim.ElfManager.Laws.{load-place, load-Fails}
use perf_sim.Machine.{Machine, default_config, new_machine}
use perf_sim.PerfSim.Dump.{dump_trace, dump_instruction}
use perf_sim.PerfSim.Dump.Columns.{opened}
use perf_sim.PerfSim.Dump.Lines.{dump_instruction_lem, name_of}
use perf_sim.PerfSim.{cycle, run, start}
use perf_sim.PerfSim.Accesses.{serve, on_bytes, serve-on_bytes, a_store, a_load}
use perf_sim.PerfSim.Accesses.Commit.{Ready}
use perf_sim.PerfSim.Ecall.{cycles, ecall-Halts, Halts}
use perf_sim.PerfSim.Ecall.Latches.{InDe}
use perf_sim.Main.{World, Simulation, main}
use perf_sim.Main.Run.{Finished, main-Finished}
use perf_sim.Tests.Programs.{words, program, ecall_word}

-- Two lines, and one after the file has been closed.
open_file-print_example :
    (print_all
        (print_all (open_file (λ p. true) new_logger (codes "a.txt")) (codes "x" ∷ codes "yz" ∷ [])
          >>= close_file)
        (codes "late" ∷ [])
      ≡ ok (file new_logger (codes "a.txt") false (codes "xyz")))
open_file-print_example =
    open_file-print (λ p. true) new_logger _ (codes "a.txt") (codes "x" ∷ codes "yz" ∷ [])
      (codes "late" ∷ []) refl refl

-- ADDI at the address 8.
abbrev addi_at_8 : Instruction
addi_at_8 = record new_instruction { name = InstrName.addi; type = type_i; pc = 8 }

addi-named : addi_at_8.name ≢ InstrName.no_name
addi-named h = cc

dump_instruction_lem_example :
    (line : Text) × (dump_instruction (opened new_logger []) addi_at_8
      ≡ ok (opened new_logger ([] ++ (to_string 8 ++ (b'\n' ∷ line)))))
    × (value_from 10 0 (to_string 8) ≡ 8)
    × (value_from 16 0 (take 8 (drop 2 line)) ≡ 8)
    × (name_of (take 12 (drop 12 line)) ≡ InstrName.addi)
dump_instruction_lem_example = dump_instruction_lem new_logger [] addi_at_8 (omega arith) addi-named

-- The words of a program at the start of a file, for the memory from 0 on.
abbrev file_of : List ℕ → ElfFile
file_of ws = record {
  version_known = true;
  opens = true;
  begins = true;
  is_elf = true;
  entry = some 0;
  class = class_32;
  phdrs = some (record { offset = 0; vaddr = 0; filesz = 32 }) ∷ [];
  seek = λ o. o;
  read = λ o n. some (words ws);
}

abbrev doubling_words : List ℕ
doubling_words =
    encode_i 5 0 0 1 0x13
    ∷ encode_r 0 1 1 0 2 0x33
    ∷ ecall_word
    ∷ 0x13
    ∷ 0x13
    ∷ 0x13
    ∷ 0x13
    ∷ 0x13
    ∷ []

doubling_words-length : length (words doubling_words) ≡ 32
unfolding words perf_sim.Memory.to_bytes
doubling_words-length = refl

load-place_example :
    load (file_of doubling_words) (record { size = 4096; memory = λ j. 0 })
    ≡ program doubling_words (record { size = 4096; memory = λ j. 0 })
load-place_example =
    load-place (file_of doubling_words) (record { vaddr = 0; content = words doubling_words } ∷ [])
      (record { size = 4096; memory = λ j. 0 })
      (refl, refl, doubling_words-length, omega arith, refl, tt)

-- The same with a second header that cannot be had.
abbrev broken_file : ElfFile
broken_file = record (file_of doubling_words) {
  phdrs = some (record { offset = 0; vaddr = 0; filesz = 32 }) ∷ none ∷ [];
}

load-Fails_example :
    load broken_file (record { size = 4096; memory = λ j. 0 })
    ≡ (program doubling_words (record { size = 4096; memory = λ j. 0 }) >>= λ m. err no_phdr)
load-Fails_example =
    load-Fails broken_file (some (record { offset = 0; vaddr = 0; filesz = 32 }) ∷ []) []
      (record { vaddr = 0; content = words doubling_words } ∷ []) none no_phdr
      (record { size = 4096; memory = λ j. 0 }) refl
      (refl, refl, doubling_words-length, omega arith, refl, tt) refl

abbrev loop_world : World
loop_world = record {
  opens = λ p. true;
  elf = λ p. file_of doubling_words;
  execution_time = 1000;
  kips = λ n d. codes "?";
}

main_returns : (s : Simulation) × (main loop_world 0 0 20 ≡ some (ok s))
unfolding main perf_sim.Base.Text.hex_digits perf_sim.Main.construct perf_sim.Main.run_all
    perf_sim.Main.report perf_sim.Main.open_if perf_sim.Log.open_file perf_sim.ElfManager.open_elf
    load perf_sim.Main.run_simulation perf_sim.Base.Text.spaces_upto perf_sim.PerfSim.Dump.dump
    dump_trace perf_sim.PerfSim.Dump.dump_hazards perf_sim.PerfSim.Names.get_instr_name
    perf_sim.PerfSim.Names.get_reg_name perf_sim.PerfSim.Dump.log_line perf_sim.Log.endl start
    new_machine perf_sim.RegFile.new_reg_file run cycle perf_sim.PerfSim.write_back
    perf_sim.PerfSim.memory_access perf_sim.PerfSim.execute perf_sim.PerfSim.decode
    perf_sim.PerfSim.fetch perf_sim.Memory.read_word perf_sim.Memory.get_bytes perf_sim.PerfSim.tick
    perf_sim.Pipeline.update perf_sim.Decoder.decode perf_sim.Memory.write words
    perf_sim.RegFile.get_reg perf_sim.Memory.write_word perf_sim.RegFile.write
    perf_sim.Decoder.recognize perf_sim.Decoder.field perf_sim.Memory.put_bytes
    perf_sim.Decoder.operand perf_sim.Decoder.destination perf_sim.Executors.execute
    perf_sim.HazardUnit.decode perf_sim.HazardUnit.exit perf_sim.HazardUnit.write
    perf_sim.Instruction.imm_i
main_returns = (_, refl)

main-Finished_example : Finished loop_world 0 0 (codes "loop") main_returns.0
main-Finished_example = main-Finished loop_world 0 0 20 main_returns.0 refl refl main_returns.1

-- The doubling program, before its first cycle and once ECALL has been decoded.
loaded : (m : Machine) × (start default_config (program doubling_words) 0 ≡ ok m)
unfolding start new_machine perf_sim.RegFile.new_reg_file perf_sim.Memory.write words
    perf_sim.RegFile.get_reg perf_sim.Memory.write_word perf_sim.RegFile.write
loaded = (_, refl)

at_ecall : (m : Machine) × (cycles 0 0 4 loaded.0 ≡ ok m) × InDe 30 m
unfolding loaded cycles start new_machine perf_sim.RegFile.new_reg_file run cycle
    perf_sim.PerfSim.write_back perf_sim.PerfSim.memory_access perf_sim.PerfSim.execute
    perf_sim.PerfSim.decode perf_sim.PerfSim.fetch perf_sim.Memory.read_word
    perf_sim.Memory.get_bytes perf_sim.PerfSim.tick perf_sim.Pipeline.update perf_sim.Decoder.decode
    perf_sim.Memory.write words perf_sim.RegFile.get_reg perf_sim.Memory.write_word
    perf_sim.RegFile.write perf_sim.Decoder.recognize perf_sim.Decoder.field
    perf_sim.Memory.put_bytes perf_sim.Decoder.operand perf_sim.Decoder.destination
    perf_sim.Executors.execute perf_sim.HazardUnit.decode perf_sim.HazardUnit.exit
    perf_sim.HazardUnit.write perf_sim.Instruction.imm_i
at_ecall = (
  _,
  refl,
  record {
    runs = record { is_stall = refl; hazard_stall = refl; instr = refl };
    object = record { type = refl; name = refl; executor = refl; branch = refl; access = refl };
    de_running = refl;
    em_running = refl;
    em_hazard = refl;
    mw_running = refl;
  },
)

ecall-Halts_example : Halts 0 0 7 loaded.0
ecall-Halts_example = ecall-Halts 0 0 4 7 loaded.0 at_ecall.0 30 at_ecall.1 at_ecall.2 (omega arith)

-- SB of 0x183 at 8, and LB from there.
abbrev sb_object : Instruction
sb_object = record new_instruction {
  type = type_s;
  name = InstrName.sb;
  mem_acc_type = access_write;
  rs2 = record { value = 0x183; name = 1 };
  acc_addr = 8;
  acc_size = 1;
}

abbrev lb_object : Instruction
lb_object = record sb_object { type = type_i; name = InstrName.lb; mem_acc_type = access_read }

abbrev accesses : List Instruction
accesses = lb_object ∷ sb_object ∷ lb_object ∷ []

abbrev small_machine : Machine
small_machine = record (new_machine default_config) {
  memory = record { size = 64; memory = λ a. 0 };
}

small_machine-Ready : Ready 64 (λ a. 0) small_machine
unfolding new_machine
small_machine-Ready = record {
  empty = refl;
  no_store = refl;
  size_of = refl;
  bytes_of = refl;
  small = omega arith;
  byte = λ j. omega arith;
}

serve-on_bytes_example :
    (m' : Machine) × (serve 0 0 small_machine accesses ≡ ok ((on_bytes (λ a. 0) accesses).0, m'))
    × Ready 64 (on_bytes (λ a. 0) accesses).1 m'
serve-on_bytes_example =
    serve-on_bytes 0 0 64 (λ a. 0) small_machine accesses small_machine-Ready
      (
        a_load refl refl tt refl (omega arith),
        (
          a_store refl refl (omega arith) (omega arith) (omega arith),
          (a_load refl refl tt refl (omega arith), tt),
        ),
      )

-- Nothing is there at first, and -1 afterwards.
accesses_loaded : (on_bytes (λ a. 0) accesses).0 ≡ 0 ∷ 4294967295 ∷ []
unfolding on_bytes perf_sim.Memory.of_bytes perf_sim.Memory.get_bytes perf_sim.Memory.put_bytes
    perf_sim.Memory.to_bytes
accesses_loaded = refl
