-- ===== src/Pipeline.antt =====
-- headers/Pipeline.h and src/Pipeline.cpp: the store queue. Addresses and sizes are `uint64_t`.
-- `queue.begin()->id` and `queue.rbegin()->id` of an empty list read past its end: the value is
-- `end_id`, a parameter, and so is what the uninitialised `d_data` holds.
pub mod Queue
use Prim.Native.Nat.{min, max}
use perf_sim.Base.{
  ℕ, zero, suc, ◌+◌, ◌-◌, ◌^◌, Bool, true, false, ◌&&◌, List, [], ◌∷◌, ◌++◌, Result, ok, err,
  undefined, wrong_access, thrown_int, pipeline_wrong_id, ◌>>=◌, ◌>>◌, guard, if◌then◌else◌, ltb,
  leb, u32, u64, w64, add32, sext64, bit_and, ◌>>>◌,
}
use mathlib.Core.List.{reverse}
use perf_sim.Types.{access_read, access_write, same_access, type_s, type_i}
use perf_sim.Instruction.{Instruction, as_class}
use perf_sim.Memory.{Memory, read_word, write_word, object_bytes_at, overwrite_at}

pub record Store : Type 0 where
  pub addr : ℕ
  pub size : ℕ
  pub word : ℕ  -- data
  pub id : ℕ

abbrev pub cleared_store : Store
cleared_store = record { addr = 0; size = 0; word = 0; id = 0 }

pub record Pipeline : Type 0 where
  pub id : ℕ
  pub store : Store
  pub queue : List Store

abbrev pub new_pipeline : Pipeline
new_pipeline = record { id = 0; store = cleared_store; queue = [] }

abbrev first_id : ℕ → List Store → ℕ
first_id end_id [] = end_id
first_id end_id (s ∷ q) = s.id

-- a - b on `uint64_t`.
abbrev sub64 : ℕ → ℕ → ℕ
sub64 a b = u64 (a + w64 - b)

abbrev end_of : Store → ℕ
end_of s = u64 (s.addr + s.size)

-- The tests on a queued store `it` and an access `ld`, in the order in which the loops make them.
-- `it` ends within `ld`:
abbrev ends_within : Store → Store → Bool
ends_within it ld = leb ld.addr (end_of it) && leb (end_of it) (end_of ld)

-- `it` begins within `ld`:
abbrev begins_within : Store → Store → Bool
begins_within it ld = leb ld.addr it.addr && leb it.addr (end_of ld)

-- `ld` lies within `it`:
abbrev covers : Store → Store → Bool
covers it ld = leb it.addr ld.addr && leb (end_of ld) (end_of it)

-- `for (index = lo; index < hi; index++) fullness[index] = true;` on 32 flags.
abbrev mark : ℕ → ℕ → (ℕ → Bool) → Result (ℕ → Bool)
mark lo hi full =
    if ltb lo hi && ltb 32 hi
    then err undefined
    else ok (λ i. if leb lo i && ltb i hi then true else full i)

-- A copy of bytes `from..from + n` of `it.data` to offset `at` of the loaded word, whose bytes are then
-- marked.
abbrev forward : Store → ℕ → ℕ → ℕ → ℕ → (ℕ → Bool) → Result (ℕ × (ℕ → Bool))
forward it from to n word full = do
  bs ← object_bytes_at it.word from n
  word' ← overwrite_at word to bs
  full' ← mark to (to + n) full
  ok (word', full')

-- One round of the loop of `searchData`: the loaded word and the marks after `it`.
forward_from : Store → Store → (ℕ → Bool) → Result (ℕ × (ℕ → Bool))
forward_from it ld full =
    if ends_within it ld
    then (if leb it.addr ld.addr
        then forward it (sub64 ld.addr it.addr) 0 (sub64 (end_of it) ld.addr) ld.word full
        else forward it 0 (sub64 it.addr ld.addr) it.size ld.word full)
    else if begins_within it ld
    then (if leb (end_of ld) (end_of it)
        then forward it 0 (sub64 it.addr ld.addr) (sub64 (end_of ld) it.addr) ld.word full
        else forward it 0 (sub64 it.addr ld.addr) it.size ld.word full)
    else if covers it ld
    then (do
      bs ← object_bytes_at it.word (sub64 ld.addr it.addr) ld.size
      word' ← overwrite_at ld.word 0 bs
      ok (word', λ i. true))
    else ok (ld.word, full)

search_loop : ℕ → Store → (ℕ → Bool) → List Store → Result (ℕ × (ℕ → Bool))
unfolding forward_from
search_loop id ld full [] = ok (ld.word, full)
search_loop id ld full (it ∷ q) =
    let rest = λ (r : ℕ × (ℕ → Bool)). search_loop it.id (record ld { word = r.0 }) r.1 q in
    if ltb it.id id then err thrown_int else (forward_from it ld full >>= rest)

-- The sum of `1 << i` over the flags that are not set, below `n`.
unfoldable pub mask_below : ℕ → (ℕ → Bool) → ℕ
mask_below zero full = 0
mask_below (suc n) full = u32 (mask_below n full + (if full n then 0 else 2 ^ n))

unfoldable pub search_data : ℕ → ℕ → Pipeline → Memory → Instruction → Result ℕ
unfolding search_loop as_class
search_data end_id d_data p memory instruction = do
  guard (same_access instruction.mem_acc_type access_read) wrong_access
  instr_i ← as_class type_i instruction
  let ld : Store = record {
    addr = sext64 instr_i.acc_addr;
    size = sext64 instr_i.acc_size;
    word = 0;
    id = 0;
  }
  r ← search_loop (first_id end_id p.queue) ld (λ i. false) p.queue
  let mask = mask_below 32 r.1
  d ← read_word memory d_data ld.addr ld.size
  ok (add32 r.0 (bit_and mask d))

-- One round of the loop of `tryConcatenate` on the queued store `it` and the store `st`: `none` for the
-- early return, else the new `it`, the new `st` and whether they met.
pub data Round : Type 0 where
  give_up : Round
  met : Store → Round
  apart : Round

-- `st` is written over `it`, which ends within it.
abbrev join_end : Store → Store → Result Round
join_end it st =
    let addr = min it.addr st.addr in
    let size = sub64 (end_of st) addr in
    if ltb 32 size
    then ok give_up
    else if leb it.addr addr
    then (do
      bs ← object_bytes_at it.word 0 (sub64 addr it.addr)
      word' ← overwrite_at (st.word >>> sub64 addr it.addr) 0 bs
      ok (met (record { addr = addr; size = size; word = word'; id = it.id })))
    else ok (met (record { addr = addr; size = size; word = st.word; id = it.id }))

-- `it` begins within `st`.
abbrev join_begin : Store → Store → Result Round
join_begin it st =
    let size = sub64 (max (end_of it) (end_of st)) st.addr in
    if ltb 32 size
    then ok give_up
    else if leb (u64 (st.addr + size)) (end_of it)
    then (do
      guard (ltb (sub64 it.addr st.addr) 32) undefined
      bs ← object_bytes_at st.word 0 size
      word' ← overwrite_at (it.word >>> sub64 it.addr st.addr) 0 bs
      ok (met (record { addr = st.addr; size = size; word = word'; id = it.id })))
    else ok (met (record { addr = st.addr; size = size; word = st.word; id = it.id }))

-- `it` covers `st`; the offset of the copy is taken after `st.addr` has been set to `it->addr`.
abbrev join_cover : Store → Store → Result Round
join_cover it st = do
  bs ← object_bytes_at st.word 0 it.size
  word' ← overwrite_at it.word 0 bs
  ok (met (record { addr = it.addr; size = it.size; word = word'; id = it.id }))

join : Store → Store → Result Round
join it st =
    if ends_within it st
    then join_end it st
    else if begins_within it st
    then join_begin it st
    else if covers it st
    then join_cover it st
    else ok apart

-- What the loop does after a round; the queue is walked from its end, so it is reversed here.
after_round :
    Store
    → List Store
    → Bool
    → Round
    → (Store → Bool → Result (Bool × List Store))
    → Store
    → Result (Bool × List Store)
after_round it q res give_up rest st = ok (res, it ∷ q)
after_round it q res (met st') rest st = do r ← rest st' true; ok (r.0, st' ∷ r.1)
after_round it q res apart rest st = do r ← rest st res; ok (r.0, it ∷ r.1)

concat_loop : ℕ → Store → Bool → List Store → Result (Bool × List Store)
unfolding join after_round
concat_loop id st res [] = ok (res, [])
concat_loop id st res (it ∷ q) =
    let rest = λ (st' : Store) (res' : Bool). concat_loop it.id st' res' q in
    if ltb id it.id
    then err pipeline_wrong_id
    else (do round ← join it st; after_round it q res round rest st)

unfoldable pub try_concatenate : ℕ → Store → List Store → Result (Bool × List Store)
unfolding concat_loop
try_concatenate end_id st queue = do
  r ← concat_loop (first_id end_id (reverse queue)) st false (reverse queue)
  ok (r.0, reverse r.1)

unfoldable pub push : ℕ → Pipeline → Instruction → Result Pipeline
unfolding try_concatenate as_class
push end_id p instruction = do
  guard (same_access instruction.mem_acc_type access_write) wrong_access
  instr_s ← as_class type_s instruction
  let id' = u32 (p.id + 1)
  let store' : Store = record {
    addr = sext64 instr_s.acc_addr;
    size = sext64 instr_s.acc_size;
    word = instr_s.rs2.value;
    id = id';
  }
  r ← try_concatenate end_id store' p.queue
  ok (record { id = id'; store = if r.0 then cleared_store else store'; queue = r.1 })

-- The front of the queue after the pending store is appended goes to memory.
commit : Pipeline → Memory → List Store → Result (Pipeline × Memory)
commit p memory [] = err undefined
commit p memory (front ∷ rest) =
    let p' = record p { store = cleared_store; queue = rest } in
    if ltb 0 front.size
    then (do memory' ← write_word memory front.word front.addr front.size; ok (p', memory'))
    else ok (p', memory)

unfoldable pub update : Pipeline → Memory → Result (Pipeline × Memory)
unfolding commit
update p memory = commit p memory (p.queue ++ p.store ∷ [])
