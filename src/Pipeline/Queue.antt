-- ===== src/Pipeline/Queue.antt =====
-- `push`, `update` and `searchData` of src/Pipeline.cpp on the store queue as it stands between two
-- cycles.
use perf_sim.Base.{
  ℕ, ◌+◌, ◌-◌, ◌%◌, ◌^◌, ◌<◌, ◌≡◌, refl, ◌∙◌, false, [], arith, bit_and, ok, ◌>>=◌, u32, sext64,
  add32, ltb, lt→ltb, if◌then◌else◌,
}
use perf_sim.Base.Bits.{bit_and_comm, bit_and_mask}
use perf_sim.Types.{access_read, access_write, type_s, type_i}
use perf_sim.Instruction.{Instruction}
use perf_sim.Memory.{Memory, write_word, read_word}
use perf_sim.Pipeline.{Pipeline, cleared_store, push, update, search_data, mask_below}

abbrev pub IsEmpty : Pipeline → Type 0
IsEmpty p = p.queue ≡ []

-- What a push leaves pending.
abbrev pub pending : Pipeline → Instruction → Pipeline
pending p i = record {
  id = u32 (p.id + 1);
  store = record {
    addr = sext64 i.acc_addr;
    size = sext64 i.acc_size;
    word = i.rs2.value;
    id = u32 (p.id + 1);
  };
  queue = [];
}

pub push-IsEmpty :
    (end_id : ℕ) (p : Pipeline) (i : Instruction)
    → i.mem_acc_type ≡ access_write
    → i.type ≡ type_s
    → IsEmpty p
    → push end_id p i ≡ ok (pending p i)
unfolding push
push-IsEmpty end_id p i acc t e = rw (acc, t, e)

-- The pending store goes to memory, and nothing stays behind.
pub update-IsEmpty :
    (p : Pipeline) (memory : Memory)
    → IsEmpty p
    → update p memory ≡ (
        if ltb 0 p.store.size
        then (write_word memory p.store.word p.store.addr p.store.size >>= λ m.
            ok (record { id = p.id; store = cleared_store; queue = [] }, m))
        else ok (record { id = p.id; store = cleared_store; queue = [] }, memory))
unfolding update
update-IsEmpty p memory e = rw e

-- A store of at least one byte that is pushed into the empty queue and committed has the effect
-- of a direct write of its word, with the same exceptions, counts one id, and leaves the queue
-- empty.
pub update-push :
    (end_id : ℕ) (p : Pipeline) (memory : Memory) (i : Instruction)
    → i.mem_acc_type ≡ access_write
    → i.type ≡ type_s
    → IsEmpty p
    → 0 < i.acc_size
    → (push end_id p i >>= λ q. update q memory) ≡ (
        write_word memory i.rs2.value (sext64 i.acc_addr) (sext64 i.acc_size) >>= λ m.
        ok (record { id = u32 (p.id + 1); store = cleared_store; queue = [] }, m))
update-push end_id p memory i acc t e pos =
    rw (push-IsEmpty end_id p i acc t e)
      (update-IsEmpty (pending p i) memory refl ∙ rw (lt→ltb 0 (sext64 i.acc_size) (ground arith)))

mask-none : mask_below 32 (λ i. false) ≡ 2 ^ 32 - 1
unfolding mask_below
mask-none = refl

low_word : (d : ℕ) → add32 0 (bit_and (2 ^ 32 - 1) d) ≡ d % 2 ^ 32
low_word d = omega (arith, bit_and_comm (2 ^ 32 - 1) d, bit_and_mask 32 d)

-- A load that finds the store queue empty gives what a direct read of its bytes leaves in the
-- uninitialised word, modulo 2 ^ 32, with the same exceptions; the value behind the end of the
-- queue does not matter.
pub search_data-IsEmpty :
    (end_id d_data : ℕ) (p : Pipeline) (memory : Memory) (i : Instruction)
    → i.mem_acc_type ≡ access_read
    → i.type ≡ type_i
    → IsEmpty p
    → search_data end_id d_data p memory i
      ≡ (read_word memory d_data (sext64 i.acc_addr) (sext64 i.acc_size) >>= λ d. ok (d % 2 ^ 32))
unfolding search_data
search_data-IsEmpty end_id d_data p memory i acc t e =
    rw (acc, t, e, mask-none)
      (λ j.
        read_word memory d_data (sext64 i.acc_addr) (sext64 i.acc_size) >>= λ d. ok (low_word d j))
