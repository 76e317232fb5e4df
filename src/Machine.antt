-- ===== src/Machine.antt =====
-- The state of the simulator: what headers/PerfSim.h, headers/HazardUnit.h, headers/Decoder.h and
-- headers/Config.h declare as fields. The hazard unit and the decoder work on the stages and on the
-- register file by reference, so all of it is one record. The instruction objects are a store of
-- their own, by number: see `array_base`.
use perf_sim.Base.{ℕ, ◌+◌, ◌*◌, ◌%◌, Bool, true, false, List, [], if◌then◌else◌, ◌==◌, u64}
use perf_sim.Types.{
  InstrType, type_r, type_i, type_s, type_b, type_u, type_j, type_system, type_none,
}
use perf_sim.Instruction.{Instruction, new_instruction}
use perf_sim.Stage.{Stage, Wf, Fd, Latch, cleared_wf, cleared_fd, cleared_latch, new_stage}
use perf_sim.Memory.{Memory}
use perf_sim.RegFile.{RegFile, new_reg_file}
use perf_sim.Pipeline.{Pipeline, new_pipeline}

pub record Config : Type 0 where
  pub page_size : ℕ
  pub memory_size : ℕ
  pub num_regs : ℕ
  pub stages : ℕ
  pub is_log : Bool
  pub dump_trace : Bool
  pub is_sq : Bool

-- The values that the constructor sets.
abbrev pub default_config : Config
default_config = record {
  page_size = 4096;
  memory_size = 4096 * 1024;
  num_regs = 32;
  stages = 5;
  is_log = true;
  dump_trace = true;
  is_sq = true;
}

pub record HazardUnit : Type 0 where
  pub bypasses_mem_ex : ℕ
  pub bypasses_wb_ex : ℕ
  pub branches : ℕ
  pub stops : ℕ

-- `CyclicArray`: the elements stand in the instruction store.
pub record CyclicArray : Type 0 where
  pub size : ℕ
  pub index : ℕ

pub record Decoder : Type 0 where
  pub i_instr_arr : CyclicArray
  pub b_instr_arr : CyclicArray
  pub r_instr_arr : CyclicArray
  pub s_instr_arr : CyclicArray
  pub u_instr_arr : CyclicArray
  pub j_instr_arr : CyclicArray
  pub sys_instr_arr : CyclicArray
  pub allocated : ℕ  -- how many objects `new Instruction` has made

abbrev pub new_cyclic_array : ℕ → CyclicArray
new_cyclic_array n = record { size = n; index = 0 }

abbrev pub new_decoder : Config → Decoder
new_decoder c =
    let a = new_cyclic_array c.stages in
    record {
      i_instr_arr = a;
      b_instr_arr = a;
      r_instr_arr = a;
      s_instr_arr = a;
      u_instr_arr = a;
      j_instr_arr = a;
      sys_instr_arr = a;
      allocated = 0;
    }

-- The number of the first element of each array of `size` objects; those made by `new` come after
-- the last array.
abbrev pub array_base : ℕ → InstrType → ℕ
array_base size type_i = 0
array_base size type_b = size
array_base size type_r = size * 2
array_base size type_s = size * 3
array_base size type_u = size * 4
array_base size type_j = size * 5
array_base size type_system = size * 6
array_base size type_none = size * 7

-- `get_next`: the position of the element, and the array after it.
unfoldable pub get_next : CyclicArray → ℕ × CyclicArray
get_next a = (a.index % a.size, record a { index = u64 (a.index + 1) })

pub record Machine : Type 0 where
  pub config : Config
  pub memory : Memory
  pub rf : RegFile
  pub fetch_st : Stage Wf
  pub fd_st : Stage Fd
  pub de_st : Stage Latch
  pub em_st : Stage Latch
  pub mw_st : Stage Latch
  pub hu : HazardUnit
  pub decoder : Decoder
  pub instrs : ℕ → Instruction
  pub pipeline : Pipeline
  pub ic : ℕ
  pub clocks : ℕ
  pub is_stop : Bool
  pub trace : List Instruction  -- the retired instructions, latest first

-- The members before the program is loaded.
unfoldable pub new_machine : Config → Machine
unfolding new_reg_file
new_machine c = record {
  config = c;
  memory = record { size = c.memory_size; memory = λ a. 0 };
  rf = new_reg_file c.num_regs;
  fetch_st = new_stage cleared_wf;
  fd_st = new_stage cleared_fd;
  de_st = new_stage cleared_latch;
  em_st = new_stage cleared_latch;
  mw_st = new_stage cleared_latch;
  hu = record { bypasses_mem_ex = 0; bypasses_wb_ex = 0; branches = 0; stops = 0 };
  decoder = new_decoder c;
  instrs = λ p. new_instruction;
  pipeline = new_pipeline;
  ic = 0;
  clocks = 0;
  is_stop = false;
  trace = [];
}

-- Writing an object through its pointer.
abbrev pub set_instr : Machine → ℕ → Instruction → Machine
set_instr m p i = record m { instrs = λ q. if q == p then i else m.instrs q }
