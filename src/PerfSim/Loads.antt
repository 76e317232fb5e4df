-- ===== src/PerfSim/Loads.antt =====
-- The value that a load puts into its register, in `memoryAccess` and `signExtend` of src/PerfSim.cpp,
-- with the store queue as it stands between two cycles.
use perf_sim.Base.{
  ℕ, ◌+◌, ◌-◌, ◌*◌, ◌/◌, ◌%◌, ◌^◌, ◌≤◌, ◌<◌, ◌≡◌, refl, ap, ◌∙◌, arith, bit_or, Result, ok, ◌>>=◌,
  ltb, if◌then◌else◌, IsWord, sext64, sra32, Bool-cases, inl, inr,
}
use native.Mathlib.Nat.{div-add-mod'}
use perf_sim.Memory.Bytes.{of_bytes-lt}
use perf_sim.Base.Bits.{bit_and_comm, bit_and_mask, bit_or-high, bit_or-ones}
use perf_sim.Types.{InstrName, access_read, type_i, extend_sign, extend_zero}
use perf_sim.Instruction.{Instruction}
use perf_sim.Memory.{Memory, read_word, get_bytes, of_bytes}
use perf_sim.Memory.Laws.{InRange, read_word_lem}
use perf_sim.Pipeline.{search_data}
use perf_sim.Pipeline.Queue.{IsEmpty, search_data-IsEmpty}
use perf_sim.Machine.{Machine}
use perf_sim.PerfSim.{sign_extend, sign_bit, extend_loaded, loaded_value}

-- The `k` low bits of `v`, and these bits with the highest of them as a sign.
abbrev pub low : ℕ → ℕ → ℕ
low k v = v % 2 ^ k

abbrev pub signed_low : ℕ → ℕ → ℕ
signed_low k v = if ltb (v % 2 ^ k) (2 ^ (k - 1)) then v % 2 ^ k else 2 ^ 32 - 2 ^ k + v % 2 ^ k

zero-one : (v : ℕ) → sign_extend v 1 extend_zero ≡ ok (low 1 v)
unfolding sign_extend
zero-one v = ap ok (bit_and_comm 1 v ∙ bit_and_mask 1 v)

zero_two : (v : ℕ) → sign_extend v 2 extend_zero ≡ ok (low 2 v)
unfolding sign_extend
zero_two v = ap ok (bit_and_comm 3 v ∙ bit_and_mask 2 v)

or_all_but_one : (v : ℕ) → IsWord v → bit_or (2 ^ 32 - 2) v ≡ 2 ^ 32 - 2 + v % 2
or_all_but_one v h =
    ap (bit_or (2 ^ 32 - 2)) (omega arith)
    ∙ bit_or-high 1 (2 ^ 31 - 1) (v / 2) (v % 2) (omega arith)
    ∙ omega (arith, bit_or-ones 31 (v / 2) (omega arith))

or_all_but_two : (v : ℕ) → IsWord v → bit_or (2 ^ 32 - 4) v ≡ 2 ^ 32 - 4 + v % 4
or_all_but_two v h =
    ap (bit_or (2 ^ 32 - 4)) (omega arith)
    ∙ bit_or-high 2 (2 ^ 30 - 1) (v / 4) (v % 4) (omega arith)
    ∙ omega (arith, bit_or-ones 30 (v / 4) (omega arith))

sign_bit-one : (v : ℕ) → IsWord v → sign_bit v 1 ≡ v % 2
unfolding sign_bit
sign_bit-one v h = ground (arith, bit_and_mask 1 (sra32 v 0))

sign_bit_two : (v : ℕ) → IsWord v → sign_bit v 2 ≡ v / 2 % 2
unfolding sign_bit
sign_bit_two v h = ground (arith, bit_and_mask 1 (sra32 v 1))

sign-one : (v : ℕ) → IsWord v → sign_extend v 1 extend_sign ≡ ok (signed_low 1 v)
unfolding sign_extend
sign-one v h =
    ground (arith, sign_bit-one v h, or_all_but_one v h, bit_and_comm 1 v, bit_and_mask 1 v)

sign_two : (v : ℕ) → IsWord v → sign_extend v 2 extend_sign ≡ ok (signed_low 2 v)
unfolding sign_extend
sign_two v h =
    ground (arith, sign_bit_two v h, or_all_but_two v h, bit_and_comm 3 v, bit_and_mask 2 v)

abbrev pub IsLoad : InstrName → Type 0
IsLoad InstrName.lb = Unit
IsLoad InstrName.lh = Unit
IsLoad InstrName.lw = Unit
IsLoad InstrName.lbu = Unit
IsLoad InstrName.lhu = Unit
IsLoad _ = ⊥

-- The number of bytes that a load reads, and what it makes of them.
abbrev pub width : InstrName → ℕ
width InstrName.lb = 1
width InstrName.lbu = 1
width InstrName.lh = 2
width InstrName.lhu = 2
width _ = 4

abbrev pub kept : InstrName → ℕ → ℕ
kept InstrName.lb v = signed_low 1 v
kept InstrName.lbu v = low 1 v
kept InstrName.lh v = signed_low 2 v
kept InstrName.lhu v = low 2 v
kept _ v = v

extend_loaded-kept :
    (n : InstrName) (v : ℕ) → IsLoad n → IsWord v → extend_loaded n v (width n) ≡ ok (kept n v)
unfolding extend_loaded
extend_loaded-kept InstrName.lb v l h = sign-one v h
extend_loaded-kept InstrName.lh v l h = sign_two v h
extend_loaded-kept InstrName.lbu v l h = zero-one v
extend_loaded-kept InstrName.lhu v l h = zero_two v
extend_loaded-kept InstrName.lw v l h = unfold sign_extend in refl
extend_loaded-kept _ v l h = absurd l

-- What was above the bytes that were read does not matter.
kept-above :
    (n : InstrName) (v d : ℕ)
    → IsLoad n
    → v < 256 ^ width n
    → kept n ((v + d / 256 ^ width n * 256 ^ width n) % 2 ^ 32) ≡ kept n v
kept-above InstrName.lb v d l h =
    let e : (v + d / 256 ^ 1 * 256 ^ 1) % 2 ^ 32 % 2 ≡ v % 2 = omega arith in
    ap (λ (t : ℕ). if ltb t 1 then t else 2 ^ 32 - 2 + t) e
kept-above InstrName.lh v d l h =
    let e : (v + d / 256 ^ 2 * 256 ^ 2) % 2 ^ 32 % 4 ≡ v % 4 = omega arith in
    ap (λ (t : ℕ). if ltb t 2 then t else 2 ^ 32 - 4 + t) e
kept-above InstrName.lbu v d l h = omega arith
kept-above InstrName.lhu v d l h = omega arith
kept-above InstrName.lw v d l h = omega arith
kept-above _ v d l h = absurd l

width-le : (n : InstrName) → width n ≤ 4
width-le InstrName.lb = omega arith
width-le _ = omega arith

abbrev pub bytes_at : Memory → ℕ → ℕ → ℕ
bytes_at memory addr n = of_bytes (get_bytes memory.memory addr n)

extend_loaded-above :
    (n : InstrName) (v d : ℕ)
    → IsLoad n
    → v < 256 ^ width n
    → extend_loaded n ((v + d / 256 ^ width n * 256 ^ width n) % 2 ^ 32) (width n) ≡ ok (kept n v)
extend_loaded-above n v d l h =
    extend_loaded-kept n _ l (omega arith) ∙ ap ok (kept-above n v d l h)

width-lt : (n : InstrName) (v : ℕ) → v < 256 ^ width n → v < 2 ^ 32
width-lt InstrName.lb v h = omega arith
width-lt InstrName.lbu v h = omega arith
width-lt InstrName.lh v h = omega arith
width-lt InstrName.lhu v h = omega arith
width-lt _ v h = h

-- What is read, with and without the queue.
source : ℕ → ℕ → Machine → Instruction → Result ℕ
source end_id d_data m i =
    if m.config.is_sq
    then search_data end_id d_data m.pipeline m.memory i
    else read_word m.memory 0 (sext64 i.acc_addr) (sext64 i.acc_size)

loaded_value-source :
    (end_id d_data : ℕ) (m : Machine) (i : Instruction)
    → i.type ≡ type_i
    → loaded_value end_id d_data m i
      ≡ (source end_id d_data m i >>= λ v. extend_loaded i.name v i.acc_size)
unfolding loaded_value source
loaded_value-source end_id d_data m i t = rw t

sext64-width : (n : InstrName) → sext64 (width n) ≡ width n
sext64-width InstrName.lb = refl
sext64-width _ = refl

zero_high : (v p : ℕ) → v < 2 ^ 32 → v + 0 / p * p ≡ (v + 0 / p * p) % 2 ^ 32
zero_high v p h = omega (arith, div-add-mod' 0 p)

source_lem :
    (end_id d_data : ℕ) (m : Machine) (i : Instruction)
    → i.acc_size ≡ width i.name
    → i.mem_acc_type ≡ access_read
    → i.type ≡ type_i
    → IsEmpty m.pipeline
    → InRange m.memory (sext64 i.acc_addr) (width i.name)
    → ((j : ℕ) → m.memory.memory j < 256)
    → let v = bytes_at m.memory (sext64 i.acc_addr) (width i.name) in
      (d : ℕ) × (source end_id d_data m i
        ≡ ok ((v + d / 256 ^ width i.name * 256 ^ width i.name) % 2 ^ 32))
unfolding source
source_lem end_id d_data m i size acc t empty range bytes =
    let addr = sext64 i.acc_addr in
    let n = width i.name in
    let p : sext64 i.acc_size ≡ n = ap (λ (s : ℕ). sext64 s) size ∙ sext64-width i.name in
    let read = λ (d : ℕ).
      ap (read_word m.memory d addr) p ∙ read_word_lem m.memory d addr n (width-le i.name) range in
    elim (Bool-cases m.config.is_sq) [
      | inl queued ↦ (
        d_data,
        rw queued (
            search_data-IsEmpty end_id d_data m.pipeline m.memory i acc t empty
            ∙ ap (λ (r : Result ℕ). r >>= λ v. ok (v % 2 ^ 32)) (read d_data)),
      )
      | inr direct ↦ (
        0,
        rw direct (
            read 0
            ∙ ap ok (
                zero_high (bytes_at m.memory addr n) (256 ^ n)
                  (width-lt i.name _ (of_bytes-lt m.memory.memory addr n bytes)))),
      )
    ]

-- A load inside a memory of bytes, with or without the store queue, which is empty, gives the
-- whole word for LW, the lowest bit of the byte for LB and LBU, and the two lowest bits of the
-- half word for LH and LHU, the highest bit kept being the sign of LB and LH.
pub loaded_value_lem :
    (end_id d_data : ℕ) (m : Machine) (i : Instruction)
    → IsLoad i.name
    → i.acc_size ≡ width i.name
    → i.mem_acc_type ≡ access_read
    → i.type ≡ type_i
    → IsEmpty m.pipeline
    → InRange m.memory (sext64 i.acc_addr) (width i.name)
    → ((j : ℕ) → m.memory.memory j < 256)
    → loaded_value end_id d_data m i
      ≡ ok (kept i.name (bytes_at m.memory (sext64 i.acc_addr) (width i.name)))
loaded_value_lem end_id d_data m i l size acc t empty range bytes =
    let (d, e) = source_lem end_id d_data m i size acc t empty range bytes in
    loaded_value-source end_id d_data m i t
    ∙ ap (λ (r : Result ℕ). r >>= λ v. extend_loaded i.name v i.acc_size) e
    ∙ ap (extend_loaded i.name _) size
    ∙ extend_loaded-above i.name _ d l
        (of_bytes-lt m.memory.memory (sext64 i.acc_addr) (width i.name) bytes)
