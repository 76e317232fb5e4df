-- ===== src/PerfSim/Start.antt =====
-- The constructor of src/PerfSim.cpp: the machine before its first cycle.
use perf_sim.Base.{
  ℕ, ◌+◌, ◌-◌, ◌^◌, ◌≤◌, ◌<◌, ◌≡◌, ◌≢◌, refl, sym, subst, true, false, arith, Result, ok, u32, w64,
  sext64, ◌==◌, Bool-cases, inl, inr, ne→==, lt→ltb,
}
use perf_sim.Types.{register_name_sp}
use perf_sim.Stage
use perf_sim.RegFile.{RegFile, new_reg_file}
use perf_sim.RegFile.Laws.{claim, put, get_reg-write, write_lem}
use perf_sim.Memory.{Memory}
use perf_sim.Memory.Laws.{InRange, write_word_lem, stored}
use perf_sim.Machine.{Machine, Config, new_machine}
use perf_sim.PerfSim.{start}

-- The stack pointer of a new machine.
abbrev pub top : Config → ℕ
top config = config.memory_size - 5

pub record Initial (config : Config) (entry : ℕ) (loaded : Memory) (m : Machine) : Type 0 where
  pub pointer : m.rf.regs register_name_sp ≡ record { value = top config; name = register_name_sp }
  pub others : (j : ℕ) → j ≢ register_name_sp → m.rf.regs j ≡ record { value = 0; name = j }
  pub unlocked : (j : ℕ) → m.rf.reg_locker j ≡ 0
  pub memory : m.memory ≡ stored loaded 0 (top config) 4
  pub fetched : m.fetch_st.load ≡ record {
    is_stall = false;
    hazard_stall = false;
    is_jump = false;
    pc = u32 entry;
    pc_jump = 0;
  }
  pub behind :
      (m.fd_st.load.is_stall ≡ true)
      × (m.de_st.load.is_stall ≡ true)
      × (m.em_st.load.is_stall ≡ true)
      × (m.mw_st.load.is_stall ≡ true)
  pub running : m.is_stop ≡ false

sp_value : (n : ℕ) → 5 ≤ n → n < 2 ^ 31 → u32 (n + w64 - 5) ≡ n - 5
sp_value n l h = omega arith

sext64-small : (n : ℕ) → n < 2 ^ 31 → sext64 n ≡ n
sext64-small n h = rw (lt→ltb n (2 ^ 31) h) refl

-- A register file from which the stack pointer has been taken, and to which it has been given back.
given_back : ℕ → ℕ → RegFile
given_back n v =
    put (claim (new_reg_file n) register_name_sp) (record { value = v; name = register_name_sp })

given_back-locks : (n v j : ℕ) → (given_back n v).reg_locker j ≡ 0
unfolding given_back new_reg_file
given_back-locks n v j = elim (Bool-cases (j == 2)) [ inl e ↦ rw e refl | inr e ↦ rw e refl ]

given_back-others : (n v j : ℕ) → j ≢ 2 → (given_back n v).regs j ≡ record { value = 0; name = j }
unfolding given_back new_reg_file
given_back-others n v j h = rw (ne→== j 2 h) refl

-- With more than two registers, and a memory of at least 5 bytes and fewer than 2 ^ 31 that loads
-- without changing its size, the constructor returns a machine whose stack pointer is the memory
-- size less 5, whose other registers are 0 and no register locked, whose memory is the loaded one
-- with a word of 0 at the stack pointer, whose fetch latch runs at the entry point modulo 2 ^ 32
-- with the other four latches stalled, and which is not stopped.
pub start-Initial :
    (config : Config) (load : Memory → Result Memory) (entry : ℕ) (memory : Memory)
    → 2 < config.num_regs
    → 5 ≤ config.memory_size
    → config.memory_size < 2 ^ 31
    → load (record { size = config.memory_size; memory = λ a. 0 }) ≡ ok memory
    → memory.size ≡ config.memory_size
    → (m : Machine) × (start config load entry ≡ ok m) × Initial config entry memory m
unfolding start new_machine new_reg_file given_back Stage.update
start-Initial config load entry memory regs low high loaded size =
    let rf = new_reg_file config.num_regs in
    let claimed = get_reg-write rf 2 regs (omega arith) in
    let value = sp_value config.memory_size low high in
    let range : InRange memory (top config) 4 = record {
      inside = subst (λ s. top config + 4 ≤ s) (sym size) (omega arith);
      small = subst (λ s. s < 2 ^ 64) (sym size) (omega arith);
    } in
    rw
      (
        loaded,
        claimed,
        value,
        sext64-small (top config) (omega arith),
        write_word_lem memory 0 (top config) 4 (omega arith) range,
        write_lem (claim rf 2) (record { value = top config; name = 2 }) regs (omega arith),
      )
      (
        _,
        refl,
        record {
          pointer = refl;
          others = given_back-others config.num_regs (top config);
          unlocked = given_back-locks config.num_regs (top config);
          memory = refl;
          fetched = refl;
          behind = (refl, refl, refl, refl);
          running = refl;
        },
      )
