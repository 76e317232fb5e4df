-- ===== src/PerfSim/Accesses.antt =====
-- The loads and the stores of a run against a memory of bytes: the accesses of `memoryAccess`, with or
-- without the store queue of src/Pipeline.cpp, each followed by the updates at the end of its cycle.
pub mod Commit
use perf_sim.Base.{
  ℕ, ◌+◌, ◌^◌, ◌≤◌, ◌<◌, ◌≡◌, refl, sym, ap, ◌∙◌, subst, Result, ok, ◌>>=◌, List, [], ◌∷◌,
  if◌then◌else◌, sext64, true, false,
}
use perf_sim.Types.{access_read, access_write, type_i, type_s}
use perf_sim.Instruction.{Instruction}
use perf_sim.Memory.{get_bytes, put_bytes, to_bytes, of_bytes}
use perf_sim.Memory.Laws.{InRange}
use perf_sim.Machine.{Machine}
use perf_sim.PerfSim.{loaded_value, access_store, tick, is_store_access}
use perf_sim.PerfSim.Loads.{IsLoad, kept, width, loaded_value_lem}
use perf_sim.PerfSim.Accesses.Commit.{
  Ready, to_bytes_small, idle-Ticks, Ready-Ticks, access_store-Ticks,
}

-- What the accesses do on bytes: the loaded values in order, and the bytes at the end.
unfoldable pub on_bytes : (ℕ → ℕ) → List Instruction → List ℕ × (ℕ → ℕ)
on_bytes f [] = ([], f)
on_bytes f (i ∷ is) =
    let next = on_bytes (put_bytes f (sext64 i.acc_addr) (to_bytes i.acc_size i.rs2.value)) is in
    let same = on_bytes f is in
    if is_store_access i
    then next
    else (kept i.name (of_bytes (get_bytes f (sext64 i.acc_addr) (width i.name))) ∷ same.0, same.1)

-- What they do in the simulator, one for each cycle.
unfoldable pub serve : ℕ → ℕ → Machine → List Instruction → Result (List ℕ × Machine)
serve end_id d_data m [] = ok ([], m)
serve end_id d_data m (i ∷ is) =
    let write = access_store end_id m i >>= tick >>= λ m'. serve end_id d_data m' is in
    let read = loaded_value end_id d_data m i >>= λ v.
    tick m >>= λ m'. serve end_id d_data m' is >>= λ r. ok (v ∷ r.0, r.1) in
    if is_store_access i then write else read

-- A load, or a store of one to four bytes, inside a memory of this size.
pub data Fits (size : ℕ) (i : Instruction) : Type 0 where
  a_store :
      i.mem_acc_type ≡ access_write
      → i.type ≡ type_s
      → 0 < i.acc_size
      → i.acc_size ≤ 4
      → sext64 i.acc_addr + i.acc_size ≤ size
      → Fits size i
  a_load :
      i.mem_acc_type ≡ access_read
      → i.type ≡ type_i
      → IsLoad i.name
      → i.acc_size ≡ width i.name
      → sext64 i.acc_addr + width i.name ≤ size
      → Fits size i

abbrev pub AllFit : ℕ → List Instruction → Type 0
AllFit size [] = Unit {0}
AllFit size (i ∷ is) = Fits size i × AllFit size is

-- What the run and the bytes agree on.
Agree : ℕ → ℕ → ℕ → Machine → List ℕ × (ℕ → ℕ) → List Instruction → Type 0
Agree end_id d_data size m r is =
    (m' : Machine) × (serve end_id d_data m is ≡ ok (r.0, m')) × Ready size r.1 m'

store-Agree :
    (end_id d_data size : ℕ) (f : ℕ → ℕ) (m n m₁ : Machine) (i : Instruction)
    (is : List Instruction)
    → is_store_access i ≡ true
    → access_store end_id m i ≡ ok n
    → tick n ≡ ok m₁
    → Agree end_id d_data size m₁
        (on_bytes (put_bytes f (sext64 i.acc_addr) (to_bytes i.acc_size i.rs2.value)) is)
        is
    → Agree end_id d_data size m (on_bytes f (i ∷ is)) (i ∷ is)
unfolding Agree serve on_bytes
store-Agree end_id d_data size f m n m₁ i is s e t (m', eq, r) = rw (s, e, t, eq) (m', refl, r)

load-Agree :
    (end_id d_data size : ℕ) (f : ℕ → ℕ) (m m₁ : Machine) (i : Instruction) (is : List Instruction)
    → is_store_access i ≡ false
    → loaded_value end_id d_data m i
      ≡ ok (kept i.name (of_bytes (get_bytes f (sext64 i.acc_addr) (width i.name))))
    → tick m ≡ ok m₁
    → Agree end_id d_data size m₁ (on_bytes f is) is
    → Agree end_id d_data size m (on_bytes f (i ∷ is)) (i ∷ is)
unfolding Agree serve on_bytes
load-Agree end_id d_data size f m m₁ i is s e t (m', eq, r) = rw (s, e, t, eq) (m', refl, r)

in_range :
    {size : ℕ} {f : ℕ → ℕ} {m : Machine} (addr n : ℕ)
    → Ready size f m
    → addr + n ≤ size
    → InRange m.memory addr n
in_range {size} {f} {m} addr n r h = record {
  inside = subst (λ s. addr + n ≤ s) (sym r.size_of) h;
  small = subst (λ s. s < 2 ^ 64) (sym r.size_of) r.small;
}

-- On a machine with an empty store queue and no pending store, over a memory of bytes below 2 ^
-- 64 in size, any list of loads and of stores of one to four bytes inside the memory, one access
-- for each cycle, with or without the store queue, succeeds, loads exactly the values, cut and
-- extended as the simulator does it, and leaves exactly the bytes that the accesses give on plain
-- bytes, one after the other, and leaves the queue empty again.
pub serve-on_bytes :
    (end_id d_data size : ℕ) (f : ℕ → ℕ) (m : Machine) (is : List Instruction)
    → Ready size f m
    → AllFit size is
    → (m' : Machine) × (serve end_id d_data m is ≡ ok ((on_bytes f is).0, m'))
      × Ready size (on_bytes f is).1 m'
unfolding Agree
serve-on_bytes end_id d_data size f m [] r h = unfold serve on_bytes in (m, refl, r)
serve-on_bytes end_id d_data size f m (i ∷ is) r (a_store acc t pos four h, hs) =
    let (n, en, ticks) =
      access_store-Ticks end_id m i acc t pos four (in_range (sext64 i.acc_addr) i.acc_size r h)
        r.empty r.no_store in
    let g = put_bytes f (sext64 i.acc_addr) (to_bytes i.acc_size i.rs2.value) in
    let ready =
      Ready-Ticks size g n _ r.size_of
        (ap (λ b. put_bytes b (sext64 i.acc_addr) (to_bytes i.acc_size i.rs2.value)) r.bytes_of)
        r.small (to_bytes_small f (sext64 i.acc_addr) i.acc_size i.rs2.value r.byte) ticks in
    store-Agree end_id d_data size f m n ticks.0 i is (rw (acc, t) refl) en ticks.1
      (serve-on_bytes end_id d_data size g ticks.0 is ready hs)
serve-on_bytes end_id d_data size f m (i ∷ is) r (a_load acc t l size_of h, hs) =
    let ticks = idle-Ticks m r.empty r.no_store in
    let ready = Ready-Ticks size f m m.memory r.size_of r.bytes_of r.small r.byte ticks in
    load-Agree end_id d_data size f m ticks.0 i is (rw acc refl)
      (loaded_value_lem end_id d_data m i l size_of acc t r.empty
          (in_range (sext64 i.acc_addr) (width i.name) r h)
          (subst (λ b. (j : ℕ) → b j < 256) (sym r.bytes_of) r.byte)
        ∙ ap (λ b. ok (kept i.name (of_bytes (get_bytes b (sext64 i.acc_addr) (width i.name)))))
            r.bytes_of)
      ticks.1 (serve-on_bytes end_id d_data size f ticks.0 is ready hs)
