-- ===== src/Tests/Parts/Decoding.antt =====
-- The theorems about the decoder at a concrete machine and concrete words.
use perf_sim.Base.{ℕ, ◌≡◌, ◌↔◌, ◌⊎◌, refl, arith, ok, err, false, some, load_hazart}
use perf_sim.Types.{InstrName, type_i, access_read}
use perf_sim.Instruction.{Instruction, new_instruction}
use perf_sim.Instruction.Encoding.{encode_r, encode_s}
use perf_sim.Executors.{execute}
use perf_sim.Machine.{Machine, default_config, new_machine}
use perf_sim.Decoder.{decode}
use perf_sim.Decoder.Table.{Encodes, IsMissing, Misread}
use perf_sim.Decoder.Decoded.{decoded_name, decoded_executes}
use perf_sim.RegFile.Laws.{claim}
use perf_sim.HazardUnit.Operands.{Writes}
use perf_sim.Decoder.Stores.{decode-store_of_load}
use perf_sim.Decoder.Operands.{IsFree, Reads, claimed, decode-IsFree}

abbrev before_start : Machine
before_start = new_machine default_config

-- SRA x8, x6, x5.
abbrev sra_word : ℕ
sra_word = encode_r 0x20 5 6 5 8 0x33

before_start-IsFree : IsFree before_start.rf
unfolding new_machine perf_sim.RegFile.new_reg_file
before_start-IsFree = record { enough = omega arith; unlocked = λ j l. refl }

decode-IsFree_example :
    (p : ℕ) × (m' : Machine) × (decode before_start sra_word ≡ ok (p, m'))
    × Reads (m'.instrs p).type before_start.rf 6 5 8 (m'.instrs p)
    × (m'.rf ≡ claimed (m'.instrs p).type before_start.rf 8)
decode-IsFree_example = decode-IsFree before_start sra_word before_start-IsFree

decoding : (p : ℕ) × (m' : Machine) × (decode before_start sra_word ≡ ok (p, m'))
unfolding decode new_machine perf_sim.Decoder.operand perf_sim.Decoder.destination
    perf_sim.Decoder.recognize perf_sim.Decoder.field perf_sim.RegFile.new_reg_file
    perf_sim.RegFile.get_reg
decoding = (_, _, refl)

decoded_name_example : (((decoding.1).instrs decoding.0).name ≡ InstrName.sra) ↔ (
    (Encodes InstrName.sra sra_word 0x33 5 0x20 × ¬ IsMissing InstrName.sra)
    ⊎ Misread InstrName.sra 0x33 5 0x20)
decoded_name_example =
    decoded_name before_start decoding.1 InstrName.sra sra_word decoding.0 (λ h. cc) decoding.2

small_shift : ((decoding.1).instrs decoding.0).rs2.value ≡ 0
unfolding decoding decode new_machine perf_sim.Decoder.operand perf_sim.Decoder.destination
    perf_sim.Decoder.recognize perf_sim.Decoder.field perf_sim.RegFile.new_reg_file
    perf_sim.RegFile.get_reg
small_shift = refl

decoded_executes_example : (j : Instruction) × (execute ((decoding.1).instrs decoding.0) ≡ ok j)
decoded_executes_example =
    decoded_executes before_start decoding.1 sra_word decoding.0 decoding.2
      (λ h. omega (arith, small_shift))

-- LW of x1 in the DE latch, and SW x1, 0(x0).
abbrev load_of_x1 : Instruction
load_of_x1 = record new_instruction {
  name = InstrName.lw;
  type = type_i;
  mem_acc_type = access_read;
  rd = record { value = 0; name = 1 };
}

abbrev store_machine : Machine
store_machine = record before_start {
  rf = claim before_start.rf 1;
  de_st = record before_start.de_st {
    load = record { is_stall = false; hazard_stall = false; pc = 0; instr = some 0 };
  };
  instrs = λ p. load_of_x1;
}

abbrev store_word : ℕ
store_word = encode_s 0 1 0 2 0x23

store_machine-Writes : Writes store_machine store_machine.de_st.load 1 load_of_x1
store_machine-Writes = (refl, (0, refl, refl), refl, refl)

decode-store_of_load_example : decode store_machine store_word ≡ err load_hazart
unfolding new_machine perf_sim.RegFile.new_reg_file
decode-store_of_load_example =
    decode-store_of_load store_machine store_word load_of_x1 refl (omega arith) (omega arith) refl
      (λ h. cc) store_machine-Writes refl
