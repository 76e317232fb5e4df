-- ===== src/Memory.antt =====
-- headers/Memory.h and src/Memory.cpp. The bytes of the vector are a function of the address, and
-- `size` is the vector's length; an access outside it that the test lets through is `undefined`.
-- A source or target object is the list of its bytes, lowest address first (little-endian).
pub mod Bytes
pub mod Laws
use perf_sim.Base.{
  ℕ, zero, suc, ◌+◌, ◌*◌, ◌/◌, ◌%◌, ◌^◌, Bool, List, [], ◌∷◌, Result, ok, err, undefined,
  out_of_memory, ◌>>=◌, ◌>>◌, guard, if◌then◌else◌, leb, u64, ◌==◌, length,
}

pub record Memory : Type 0 where
  pub size : ℕ
  pub memory : ℕ → ℕ

-- The first bytes of a word, and the word that bytes make.
unfoldable pub to_bytes : ℕ → ℕ → List ℕ
to_bytes zero w = []
to_bytes (suc n) w = (w % 256) ∷ to_bytes n (w / 256)

unfoldable pub of_bytes : List ℕ → ℕ
of_bytes [] = 0
of_bytes (b ∷ bs) = b + 256 * of_bytes bs

-- `memcpy` out of the vector, and into it.
unfoldable pub get_bytes : (ℕ → ℕ) → ℕ → ℕ → List ℕ
get_bytes f a zero = []
get_bytes f a (suc n) = f a ∷ get_bytes f (suc a) n

unfoldable pub put_bytes : (ℕ → ℕ) → ℕ → List ℕ → ℕ → ℕ
put_bytes f a [] j = f j
put_bytes f a (b ∷ bs) j = if j == a then b else put_bytes f (suc a) bs j

-- `addr + bytes > size`, in 64 bits.
unfoldable pub fits : Memory → ℕ → ℕ → Bool
fits m addr bytes = leb (u64 (addr + bytes)) m.size

unfoldable pub write : Memory → List ℕ → ℕ → Result Memory
unfolding fits
write m bs addr = do
  guard (fits m addr (length bs)) out_of_memory
  guard (leb (addr + length bs) m.size) undefined
  ok (record m { memory = put_bytes m.memory addr bs })

unfoldable pub read : Memory → ℕ → ℕ → Result (List ℕ)
unfolding fits
read m addr bytes = do
  guard (fits m addr bytes) out_of_memory
  guard (leb (addr + bytes) m.size) undefined
  ok (get_bytes m.memory addr bytes)

-- The bytes of a four-byte object that `memcpy` takes from it, and what it leaves in one.
unfoldable pub object_bytes : ℕ → ℕ → Result (List ℕ)
object_bytes w n = if leb n 4 then ok (to_bytes n w) else err undefined

unfoldable pub overwrite : ℕ → List ℕ → Result ℕ
unfolding of_bytes
overwrite w bs =
    if leb (length bs) 4
    then ok (of_bytes bs + w / 256 ^ length bs * 256 ^ length bs)
    else err undefined

-- The same at an offset: `(char*)(&w) + offset` as the source and as the target.
unfoldable pub object_bytes_at : ℕ → ℕ → ℕ → Result (List ℕ)
object_bytes_at w offset n =
    if leb (offset + n) 4 then ok (to_bytes n (w / 256 ^ offset)) else err undefined

unfoldable pub overwrite_at : ℕ → ℕ → List ℕ → Result ℕ
unfolding of_bytes
overwrite_at w offset bs =
    if leb (offset + length bs) 4
    then ok (
        w % 256 ^ offset
        + (of_bytes bs + w / 256 ^ (offset + length bs) * 256 ^ length bs) * 256 ^ offset)
    else err undefined

-- A write from a four-byte object, and a read into one that held `old`.
unfoldable pub write_word : Memory → ℕ → ℕ → ℕ → Result Memory
unfolding object_bytes write
write_word m w addr n = do bs ← object_bytes w n; write m bs addr

unfoldable pub read_word : Memory → ℕ → ℕ → ℕ → Result ℕ
unfolding read overwrite
read_word m old addr n = do bs ← read m addr n; overwrite old bs
