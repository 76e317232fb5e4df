-- ===== src/Memory/Laws.antt =====
-- The memory under `write` and `read`: round trip, frame, and what happens outside of it.
use perf_sim.Base.{
  ℕ, ◌+◌, ◌*◌, ◌/◌, ◌%◌, ◌^◌, ◌≤◌, ◌<◌, ◌≡◌, ◌⊎◌, refl, sym, ap, ◌∙◌, true, false, arith, leb, u64,
  ok, err, out_of_memory, undefined,
}
use perf_sim.Memory.{Memory, to_bytes, of_bytes, get_bytes, put_bytes, fits, write_word, read_word}
use perf_sim.Memory.Bytes.{
  length-to_bytes, length-get_bytes, of_bytes-to_bytes, put_bytes_outside, get_bytes-put_bytes,
}

pub le→leb : (a b : ℕ) → a ≤ b → leb a b ≡ true
le→leb a b h = ground arith

gt→leb : (a b : ℕ) → b < a → leb a b ≡ false
gt→leb a b h = ground arith

-- An access that lies in the memory.
pub record InRange (m : Memory) (addr n : ℕ) : Type 0 where
  pub inside : addr + n ≤ m.size
  pub small : m.size < 2 ^ 64

u64-InRange : (m : Memory) (addr n : ℕ) → InRange m addr n → u64 (addr + n) ≤ m.size
u64-InRange m addr n h = omega arith

-- The memory after `n` bytes of `w` have been written at `addr`.
abbrev pub stored : Memory → ℕ → ℕ → ℕ → Memory
stored m w addr n = record m { memory = put_bytes m.memory addr (to_bytes n w) }

pub write_word_lem :
    (m : Memory) (w addr n : ℕ)
    → n ≤ 4
    → InRange m addr n
    → write_word m w addr n ≡ ok (stored m w addr n)
unfolding write_word
write_word_lem m w addr n four h = rw (
  le→leb n 4 four,
  length-to_bytes n w,
  le→leb (u64 (addr + n)) m.size (u64-InRange m addr n h),
  le→leb (addr + n) m.size h.inside,
)

pub read_word_lem :
    (m : Memory) (old addr n : ℕ)
    → n ≤ 4
    → InRange m addr n
    → read_word m old addr n ≡ ok (of_bytes (get_bytes m.memory addr n) + old / 256 ^ n * 256 ^ n)
unfolding read_word
read_word_lem m old addr n four h = rw (
  le→leb (u64 (addr + n)) m.size (u64-InRange m addr n h),
  le→leb (addr + n) m.size h.inside,
  length-get_bytes m.memory addr n,
  le→leb n 4 four,
)

get_bytes-stored :
    (m : Memory) (w addr n : ℕ) → get_bytes (stored m w addr n).memory addr n ≡ to_bytes n w
get_bytes-stored m w addr n =
    ap (get_bytes (stored m w addr n).memory addr) (sym (length-to_bytes n w))
    ∙ get_bytes-put_bytes m.memory addr (to_bytes n w)

-- A write of up to four bytes inside a memory of less than 2 ^ 64 bytes succeeds, reading them
-- back gives the written bytes below those that the target had, and a byte outside is not
-- changed.
pub read_word-write_word :
    (m : Memory) (w old addr n j : ℕ)
    → n ≤ 4
    → InRange m addr n
    → (j < addr) ⊎ (addr + n ≤ j)
    → (m' : Memory) × (write_word m w addr n ≡ ok m')
      × (read_word m' old addr n ≡ ok (w % 256 ^ n + old / 256 ^ n * 256 ^ n))
      × (m'.size ≡ m.size)
      × (m'.memory j ≡ m.memory j)
read_word-write_word m w old addr n j four h o = (
  stored m w addr n,
  write_word_lem m w addr n four h,
  read_word_lem (stored m w addr n) old addr n four (record { inside = h.inside; small = h.small })
      ∙ ap (λ (v : ℕ). ok (v + old / 256 ^ n * 256 ^ n))
          (ap of_bytes (get_bytes-stored m w addr n) ∙ of_bytes-to_bytes n w),
  refl,
  put_bytes_outside m.memory addr (to_bytes n w) j (rw (length-to_bytes n w) o),
)

-- An access of up to four bytes that ends behind the memory, with its end below 2 ^ 64, throws,
-- as a write and as a read.
pub out_of_memory_lem :
    (m : Memory) (w old addr n : ℕ)
    → n ≤ 4
    → m.size < addr + n
    → addr + n < 2 ^ 64
    → (write_word m w addr n ≡ err out_of_memory) × (read_word m old addr n ≡ err out_of_memory)
unfolding write_word read_word
out_of_memory_lem m w old addr n four out small =
    let e = gt→leb (u64 (addr + n)) m.size (omega arith) in
    (rw (le→leb n 4 four, length-to_bytes n w, e), rw e)

-- An access of up to four bytes that begins behind the memory and below 2 ^ 64 and ends at or
-- behind 2 ^ 64, with its wrapped end in the memory, passes the test of the bounds and is
-- undefined, as a write and as a read.
pub wrapped_access_undefined :
    (m : Memory) (w old addr n : ℕ)
    → n ≤ 4
    → m.size < addr
    → addr < 2 ^ 64
    → 2 ^ 64 ≤ addr + n
    → addr + n ≤ m.size + 2 ^ 64
    → (fits m addr n ≡ true)
      × (write_word m w addr n ≡ err undefined)
      × (read_word m old addr n ≡ err undefined)
unfolding fits write_word read_word
wrapped_access_undefined m w old addr n four out below wraps low =
    let p = le→leb (u64 (addr + n)) m.size (omega arith) in
    let q = gt→leb (addr + n) m.size (omega arith) in
    (p, rw (le→leb n 4 four, length-to_bytes n w, p, q), rw (p, q))
