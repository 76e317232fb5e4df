-- ===== src/Tests/Runs.antt =====
-- The theorems about the whole simulator at concrete machines.
use perf_sim.Base.{
  ℕ, ◌*◌, ◌≤◌, List, Result, ◌-◌, ◌^◌, ◌≡◌, refl, inl, true, false, some, [], ◌∷◌, arith, ok, err,
  Post, load_hazart,
}
use perf_sim.Types.{InstrName, type_i, access_read, access_none, stage_execute, stage_memory}
use perf_sim.Instruction.{Register, Instruction, new_instruction}
use perf_sim.Instruction.Encoding.{encode_r, encode_i}
use perf_sim.Stage.{Latch}
use perf_sim.Memory.{Memory}
use perf_sim.Machine.{Machine, default_config, new_machine}
use perf_sim.HazardUnit
use perf_sim.HazardUnit.Operands.{Writes, Counted, decode-Found, decode-stops}
use perf_sim.PerfSim.{start, run, cycle, memory_access, update_stages, loaded_value}
use perf_sim.Tests.Programs.{program, words, ecall_word}
use perf_sim.PerfSim.Clock.{Inv, Cycled, cycle-Cycled}
use perf_sim.PerfSim.Run.{run-Inv}
use perf_sim.PerfSim.History.{Ran, run-Ran}
use perf_sim.PerfSim.Start.{Initial, start-Initial}
use perf_sim.Stage.{update, cleared_wf, cleared_fd, cleared_latch}
use perf_sim.PerfSim.Defects.{load_use_cancelled, flush-put}
use perf_sim.Base.{if◌then◌else◌, ◌==◌}
use perf_sim.PerfSim.{latch_decoded, execute, set_de_stall}
use perf_sim.PerfSim.Loads.{kept, bytes_at, loaded_value_lem}

-- `addi x1, x0, 5`, `add x2, x1, x1`, ECALL, and what is fetched behind it.
abbrev doubling : Memory → Result Memory
doubling = program (
    encode_i 5 0 0 1 0x13
    ∷ encode_r 0 1 1 0 2 0x33
    ∷ ecall_word
    ∷ 0x13
    ∷ 0x13
    ∷ 0x13
    ∷ 0x13
    ∷ 0x13
    ∷ [])

doubling_loaded :
    (memory : Memory) × (doubling (record { size = 4096 * 1024; memory = λ a. 0 }) ≡ ok memory)
    × (memory.size ≡ 4096 * 1024)
unfolding words perf_sim.Memory.write
doubling_loaded = (_, refl, refl)

start-Initial_example :
    (m : Machine) × (start default_config doubling 64 ≡ ok m)
    × Initial default_config 64 doubling_loaded.0 m
start-Initial_example =
    start-Initial default_config doubling 64 doubling_loaded.0 (omega arith) (omega arith)
      (omega arith) doubling_loaded.1 doubling_loaded.2

abbrev before_start : Machine
before_start = new_machine default_config

before_start-Inv : Inv before_start
unfolding new_machine
before_start-Inv = record { zero_reg = refl; empty = refl }

cycle-Cycled_example : Post (Cycled before_start) (cycle 0 0 before_start)
cycle-Cycled_example = cycle-Cycled 0 0 before_start before_start-Inv

-- A machine whose MW latch holds an ECALL.
abbrev ecall_machine : Machine
ecall_machine = record before_start {
  mw_st = record before_start.mw_st {
    load = record { is_stall = false; hazard_stall = false; pc = 0; instr = some 0 };
  };
  instrs = λ p. record new_instruction { name = InstrName.ecall };
}

ecall_machine-Inv : Inv ecall_machine
unfolding new_machine
ecall_machine-Inv = record { zero_reg = refl; empty = refl }

ecall-ends : (m' : Machine) × (run 0 0 1 ecall_machine ≡ some (ok m'))
unfolding run new_machine cycle perf_sim.PerfSim.write_back memory_access perf_sim.PerfSim.execute
    perf_sim.PerfSim.decode perf_sim.PerfSim.fetch perf_sim.Memory.read_word
    perf_sim.Memory.get_bytes perf_sim.PerfSim.tick perf_sim.Pipeline.update
ecall-ends = (_, refl)

run-Inv_example : Inv ecall-ends.0 × (ecall-ends.0.is_stop ≡ true)
run-Inv_example = run-Inv 0 0 1 ecall_machine ecall-ends.0 ecall_machine-Inv ecall-ends.1

run-Ran_example :
    (n : ℕ) × (is : List Instruction) × (n ≤ 1) × Ran 0 0 n ecall_machine ecall-ends.0 is
unfolding new_machine
run-Ran_example =
    run-Ran 0 0 1 ecall_machine ecall-ends.0 ecall_machine-Inv (omega arith) refl ecall-ends.1

-- LW x1 in the DE latch, once executed, with an instruction behind it that reads x1.
abbrev load_object : Instruction
load_object = record new_instruction {
  type = type_i;
  name = InstrName.lw;
  mem_acc_type = access_read;
  rd = record { value = 77; name = 1 };
  acc_addr = 8;
  acc_size = 4;
}

abbrev running : Latch
running = record { is_stall = false; hazard_stall = false; pc = 0; instr = some 0 }

abbrev load_machine : Machine
load_machine = record before_start {
  de_st = record before_start.de_st { load = running };
  em_st = record before_start.em_st { store = running };
  instrs = λ p. load_object;
}

abbrev old_x1 : Register
old_x1 = record { value = 3; name = 1 }

load_machine-Writes : Writes load_machine load_machine.de_st.load 1 load_object
load_machine-Writes = (refl, (0, refl, refl), refl, refl)

decode-stops_example :
    (m₁ : Machine) × (HazardUnit.decode load_machine old_x1 stage_execute ≡ ok (old_x1, m₁))
    × (update cleared_wf m₁.fetch_st ≡ load_machine.fetch_st)
    × (update cleared_fd m₁.fd_st ≡ load_machine.fd_st)
    × (m₁.de_st ≡ load_machine.de_st)
    × ((update cleared_latch m₁.em_st).load
        ≡ record load_machine.em_st.store { hazard_stall = true })
    × (m₁.hu.stops ≡ 1)
    × (m₁.hu.branches ≡ 0)
    × (HazardUnit.decode load_machine old_x1 stage_memory ≡ err load_hazart)
unfolding new_machine
decode-stops_example =
    decode-stops load_machine old_x1 load_object load_machine-Writes refl (omega arith)
      (omega arith) refl

load_use_cancelled_example :
    (m₁ m₂ : Machine) × (HazardUnit.decode load_machine old_x1 stage_execute ≡ ok (old_x1, m₁))
    × (memory_access 0 0 (update_stages m₁) ≡ ok m₂)
    × (m₂.memory ≡ load_machine.memory)
    × (m₂.instrs 0 ≡ load_object)
    × (m₂.rf.regs 1 ≡ load_object.rd)
unfolding new_machine
load_use_cancelled_example =
    load_use_cancelled 0 0 0 load_machine old_x1 load_object load_machine-Writes refl refl refl refl
      refl (omega arith) (omega arith)

-- ADDI x1 in the DE latch.
abbrev addi_object : Instruction
addi_object = record load_object { mem_acc_type = access_none; name = InstrName.addi }

abbrev addi_machine : Machine
addi_machine = record load_machine { instrs = λ p. addi_object }

decode-Found_example :
    (m' : Machine) × (HazardUnit.decode addi_machine old_x1 stage_execute ≡ ok (addi_object.rd, m'))
    × Counted addi_machine m'
decode-Found_example =
    decode-Found addi_machine old_x1 addi_object.rd stage_execute
      (inl (addi_object, (refl, (0, refl, refl), refl, refl), refl, refl))

-- A jump, and ADDI x1 behind it, which was decoded when x1 was 77.
abbrev jump_machine : Machine
jump_machine = record before_start {
  instrs = λ q. if q == 0 then record new_instruction { is_branch = true } else addi_object;
}

flush-put_example :
    (m₁ m₂ m₃ : Machine) × (HazardUnit.branch jump_machine 0 ≡ ok m₁)
    × (latch_decoded 4 (1, set_de_stall m₁ false) ≡ ok m₂)
    × (execute (update_stages m₂) ≡ ok m₃)
    × (m₃.em_st.store.is_stall ≡ true)
    × (m₃.rf.regs 1 ≡ addi_object.rd)
unfolding new_machine
flush-put_example = flush-put jump_machine 0 1 4 refl refl refl (omega arith) (omega arith)

-- LB of the byte 0x83 at 8.
abbrev byte_object : Instruction
byte_object = record load_object { name = InstrName.lb; acc_size = 1 }

abbrev byte_machine : Machine
byte_machine = record before_start { memory = record { size = 64; memory = λ a. 0x83 } }

loaded_value_lem_example :
    loaded_value 0 99 byte_machine byte_object
    ≡ ok (kept InstrName.lb (bytes_at byte_machine.memory 8 1))
unfolding new_machine
loaded_value_lem_example =
    loaded_value_lem 0 99 byte_machine byte_object tt refl refl refl refl
      (record { inside = omega arith; small = omega arith }) (λ j. omega arith)

-- The register that is loaded is -1.
loaded_byte : kept InstrName.lb (bytes_at byte_machine.memory 8 1) ≡ 2 ^ 32 - 1
unfolding perf_sim.Memory.of_bytes perf_sim.Memory.get_bytes
loaded_byte = refl
