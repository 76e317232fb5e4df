-- ===== src/PerfSim/Accesses/Commit.antt =====
-- One access and the updates at the end of its cycle: `memoryAccess` of src/PerfSim.cpp and `Pipeline::update`.
use perf_sim.Base.{
  ℕ, zero, suc, ◌+◌, ◌/◌, ◌^◌, ◌≤◌, ◌<◌, ◌≡◌, refl, sym, ap, ◌∙◌, arith, ok, ◌>>=◌, [], inl, inr,
  ltb, if◌then◌else◌, sext64, Bool-cases, Bool, true, false, u32,
}
use perf_sim.Types.{access_write, type_s}
use perf_sim.Instruction.{Instruction}
use perf_sim.Memory.{Memory, write_word, put_bytes, to_bytes}
use perf_sim.Memory.Laws.{InRange, write_word_lem, stored}
use perf_sim.Pipeline.{push, Pipeline, cleared_store}
use perf_sim.Pipeline
use perf_sim.Pipeline.Queue.{IsEmpty, pending, push-IsEmpty, update-push, update-IsEmpty}
use perf_sim.Machine.{Machine}
use perf_sim.PerfSim.{access_store, direct_store, tick, update_stages, committed}

-- A machine between two cycles, over these bytes.
pub record Ready (size : ℕ) (f : ℕ → ℕ) (m : Machine) : Type 0 where
  pub empty : IsEmpty m.pipeline
  pub no_store : m.pipeline.store.size ≡ 0
  pub size_of : m.memory.size ≡ size
  pub bytes_of : m.memory.memory ≡ f
  pub small : size < 2 ^ 64
  pub byte : (j : ℕ) → f j < 256

pub to_bytes_small :
    (f : ℕ → ℕ) (a n w : ℕ) → ((j : ℕ) → f j < 256) → (j : ℕ) → put_bytes f a (to_bytes n w) j < 256
unfolding put_bytes to_bytes
to_bytes_small f a zero w h j = h j
to_bytes_small f a (suc n) w h j = ground (arith, to_bytes_small f (suc a) n (w / 256) h j)

if_true : {A : Type 0} (b : Bool) (x y : A) → b ≡ true → (if b then x else y) ≡ x
if_true b x y e = rw e refl

if_false : {A : Type 0} (b : Bool) (x y : A) → b ≡ false → (if b then x else y) ≡ y
if_false b x y e = rw e refl

-- The updates at the end of a cycle, by what the queue's one gives.
abbrev Ticks : Machine → Memory → Type 0
Ticks m memory =
    (m' : Machine) × (tick m ≡ ok m')
    × (m'.memory ≡ memory)
    × (m'.pipeline.queue ≡ [])
    × (m'.pipeline.store.size ≡ 0)

update-Ticks :
    (m : Machine) (id : ℕ) (memory : Memory)
    → Pipeline.update m.pipeline m.memory
      ≡ ok (record { id = id; store = cleared_store; queue = [] }, memory)
    → Ticks m memory
unfolding tick update_stages committed
update-Ticks m id memory e = (
  committed (update_stages m) (record { id = id; store = cleared_store; queue = [] }, memory),
  ap (λ r. r >>= λ x. ok (committed (update_stages m) x)) e,
  refl,
  refl,
  refl,
)

pub idle-Ticks : (m : Machine) → IsEmpty m.pipeline → m.pipeline.store.size ≡ 0 → Ticks m m.memory
idle-Ticks m e z =
    update-Ticks m m.pipeline.id m.memory
      (update-IsEmpty m.pipeline m.memory e ∙ if_false _ _ _ (ap (ltb 0) z))

pub Ready-Ticks :
    (size : ℕ) (f : ℕ → ℕ) (m : Machine) (memory : Memory)
    → memory.size ≡ size
    → memory.memory ≡ f
    → size < 2 ^ 64
    → ((j : ℕ) → f j < 256)
    → (t : Ticks m memory) → Ready size f t.0
Ready-Ticks size f m memory es ef small byte (m', e, em, eq, ez) = record {
  empty = eq;
  no_store = ez;
  size_of = ap (λ (x : Memory). x.size) em ∙ es;
  bytes_of = ap (λ (x : Memory). x.memory) em ∙ ef;
  small = small;
  byte = byte;
}

-- A store through the queue, and one without it.
queued :
    (end_id : ℕ) (m : Machine) (i : Instruction)
    → i.mem_acc_type ≡ access_write
    → i.type ≡ type_s
    → IsEmpty m.pipeline
    → m.config.is_sq ≡ true
    → access_store end_id m i ≡ ok (record m { pipeline = pending m.pipeline i })
unfolding access_store
queued end_id m i acc t e b =
    if_true m.config.is_sq _ _ b
    ∙ ap (λ r. r >>= λ p. ok (record m { pipeline = p })) (push-IsEmpty end_id m.pipeline i acc t e)

direct :
    (end_id : ℕ) (m : Machine) (i : Instruction) (memory : Memory)
    → i.type ≡ type_s
    → m.config.is_sq ≡ false
    → write_word m.memory i.rs2.value (sext64 i.acc_addr) (sext64 i.acc_size) ≡ ok memory
    → access_store end_id m i ≡ ok (record m { memory = memory })
unfolding access_store direct_store
direct end_id m i memory t b w = if_false m.config.is_sq _ _ b ∙ rw (t, w) refl

small_size : (n : ℕ) → n ≤ 4 → sext64 n ≡ n
small_size n h = ground arith

-- A store, with or without the queue, and the updates.
pub access_store-Ticks :
    (end_id : ℕ) (m : Machine) (i : Instruction)
    → i.mem_acc_type ≡ access_write
    → i.type ≡ type_s
    → 0 < i.acc_size
    → i.acc_size ≤ 4
    → InRange m.memory (sext64 i.acc_addr) i.acc_size
    → IsEmpty m.pipeline
    → m.pipeline.store.size ≡ 0
    → (n : Machine) × (access_store end_id m i ≡ ok n)
      × Ticks n (stored m.memory i.rs2.value (sext64 i.acc_addr) i.acc_size)
access_store-Ticks end_id m i acc t pos four range e z =
    let memory = stored m.memory i.rs2.value (sext64 i.acc_addr) i.acc_size in
    let written =
      ap (write_word m.memory i.rs2.value (sext64 i.acc_addr)) (small_size i.acc_size four)
      ∙ write_word_lem m.memory i.rs2.value (sext64 i.acc_addr) i.acc_size four range in
    let n = record m { pipeline = pending m.pipeline i } in
    elim (Bool-cases m.config.is_sq) [
      | inl b ↦ (
        n,
        queued end_id m i acc t e b,
        update-Ticks n (u32 (m.pipeline.id + 1)) memory (
            sym (
              ap (λ r. r >>= λ q. Pipeline.update q m.memory)
                (push-IsEmpty end_id m.pipeline i acc t e))
            ∙ update-push end_id m.pipeline m.memory i acc t e pos
            ∙ ap
                (λ r. r >>= λ x.
                  ok
                    (record { id = u32 (m.pipeline.id + 1); store = cleared_store; queue = [] }, x))
                written),
      )
      | inr b ↦ (
        record m { memory = memory },
        direct end_id m i memory t b written,
        idle-Ticks (record m { memory = memory }) e z,
      )
    ]
