-- ===== src/PerfSim/MemoryAccess.antt =====
-- `memoryAccess` and `signExtend` of src/PerfSim.cpp.
use perf_sim.Base.{
  ℕ, ◌-◌, ◌^◌, Bool, not, ◌&&◌, ◌||◌, bit_and, bit_or, Result, ok, err, undefined, deref, ◌>>=◌,
  if◌then◌else◌, ◌==◌, ltb, sub32, sra32, not32, sext64,
}
use perf_sim.Types.{
  ExtendType, extend_sign, extend_zero, access_read, access_write, same_access, type_i, type_s,
  same_type, InstrName,
}
use perf_sim.Instruction.{Instruction, set_rd_value, as_class}
use perf_sim.Stage.{Latch, is_stop}
use perf_sim.Memory.{read_word, write_word}
use perf_sim.Pipeline.{push, search_data}
use perf_sim.Machine.{Machine, set_instr}
use perf_sim.PerfSim.Stalls.{set_mw_stall, unlock_if}

-- `size` is a number of bytes, which the code takes for a number of bits.
unfoldable pub sign_bit : ℕ → ℕ → ℕ
sign_bit num size = bit_and (sra32 num (size - 1)) 0b1

unfoldable pub sign_extend : ℕ → ℕ → ExtendType → Result ℕ
unfolding sign_bit
sign_extend num size extend_zero =
    if size == 4
    then ok num
    else if ltb size 32
    then ok (bit_and (sub32 (2 ^ size) 1) num)
    else err undefined
sign_extend num size extend_sign =
    if size == 4
    then ok num
    else if ltb 0 size && ltb size 32
    then ok (
        if sign_bit num size == 0
        then bit_and (sub32 (2 ^ size) 1) num
        else bit_or (not32 (sub32 (2 ^ size) 1)) num)
    else err undefined

-- The store of `memoryAccess`: through the queue, or directly.
unfoldable pub direct_store : Machine → Instruction → Result Machine
unfolding as_class
direct_store m i = do
  instr_s ← as_class type_s i
  memory ← write_word m.memory instr_s.rs2.value (sext64 instr_s.acc_addr) (sext64 instr_s.acc_size)
  ok (record m { memory = memory })

unfoldable pub access_store : ℕ → Machine → Instruction → Result Machine
unfolding direct_store
access_store end_id m i =
    if m.config.is_sq
    then (push end_id m.pipeline i >>= λ p. ok (record m { pipeline = p }))
    else direct_store m i

-- The extension of the loaded value that the name asks for.
unfoldable pub extend_loaded : InstrName → ℕ → ℕ → Result ℕ
extend_loaded InstrName.lhu v size = sign_extend v size extend_zero
extend_loaded InstrName.lbu v size = sign_extend v size extend_zero
extend_loaded InstrName.lh v size = sign_extend v size extend_sign
extend_loaded InstrName.lb v size = sign_extend v size extend_sign
extend_loaded InstrName.lw v size = sign_extend v size extend_sign
extend_loaded _ v size = ok v

-- The value that a load puts into `rd`.
unfoldable pub loaded_value : ℕ → ℕ → Machine → Instruction → Result ℕ
unfolding as_class extend_loaded
loaded_value end_id d_data m i = do
  instr_i ← as_class type_i i
  v ←
      if m.config.is_sq
      then search_data end_id d_data m.pipeline m.memory i
      else read_word m.memory 0 (sext64 instr_i.acc_addr) (sext64 instr_i.acc_size)
  extend_loaded instr_i.name v instr_i.acc_size

-- The load of `memoryAccess`.
unfoldable pub access_load : ℕ → ℕ → Machine → ℕ → Result Machine
unfolding loaded_value set_rd_value
access_load end_id d_data m p = do
  v ← loaded_value end_id d_data m (m.instrs p)
  i ← set_rd_value (m.instrs p) v
  ok (set_instr m p i)

abbrev pub is_store_access : Instruction → Bool
is_store_access i = same_access access_write i.mem_acc_type && same_type type_s i.type

abbrev pub is_load_access : Instruction → Bool
is_load_access i = same_access access_read i.mem_acc_type && same_type type_i i.type

unfoldable pub store_if : ℕ → Instruction → Machine → Result Machine
unfolding access_store
store_if end_id i m = if is_store_access i then access_store end_id m i else ok m

unfoldable pub load_if : ℕ → ℕ → Instruction → ℕ → Machine → Result Machine
unfolding access_load
load_if end_id d_data i p m = if is_load_access i then access_load end_id d_data m p else ok m

unfoldable pub into_mw : Latch → Machine → Machine
into_mw em m = record m {
  mw_st = record m.mw_st { store = record m.mw_st.store { instr = em.instr; pc = em.pc } };
}

unfoldable pub access_object : ℕ → ℕ → Latch → Machine → ℕ → Result Machine
unfolding store_if load_if into_mw
access_object end_id d_data em m p = do
  m₂ ← store_if end_id (m.instrs p) m
  m₃ ← load_if end_id d_data (m.instrs p) p m₂
  ok (into_mw em m₃)

unfoldable pub memory_access : ℕ → ℕ → Machine → Result Machine
unfolding is_stop unlock_if access_object
memory_access end_id d_data m =
    let em = m.em_st.load in
    let stall = em.is_stall || em.hazard_stall in
    let m₁ = set_mw_stall m stall in
    if stall || is_stop m.mw_st
    then unlock_if (not em.is_stall && em.hazard_stall) m₁ em.instr
    else deref em.instr >>= access_object end_id d_data em m₁
