-- ===== src/Base/Word.antt =====
-- Machine words: a `uint32_t` or `int32_t` is its bit pattern, a number below 2 ^ 32, and a
-- `uint64_t` a number below 2 ^ 64. Sums and differences wrap.
use Prim.Native.Nat.{ℕ, ◌+◌, ◌-◌, ◌*◌, ◌/◌, ◌%◌, ◌^◌, ◌<◌}
use perf_sim.Base.Int.{ℤ, pos, negsuc}
use perf_sim.Base.Tests.{ltb, if◌then◌else◌}

abbrev pub w32 : ℕ
w32 = 2 ^ 32

abbrev pub w64 : ℕ
w64 = 2 ^ 64

abbrev pub IsWord : ℕ → Type 0
IsWord a = a < 2 ^ 32

abbrev pub u32 : ℕ → ℕ
u32 n = n % 2 ^ 32

abbrev pub u64 : ℕ → ℕ
u64 n = n % 2 ^ 64

abbrev pub add32 : ℕ → ℕ → ℕ
add32 a b = (a + b) % 2 ^ 32

abbrev pub sub32 : ℕ → ℕ → ℕ
sub32 a b = (a + 2 ^ 32 - b) % 2 ^ 32

-- The logical shifts of C, for an amount that the word has.
infixl 75 ◌<<<◌ ◌>>>◌
abbrev pub ◌<<<◌ : ℕ → ℕ → ℕ
x <<< k = x * 2 ^ k

abbrev pub ◌>>>◌ : ℕ → ℕ → ℕ
x >>> k = x / 2 ^ k

-- The number that an `int32_t` of this bit pattern stands for.
abbrev pub signed32 : ℕ → ℤ
signed32 a = if ltb a (2 ^ 31) then pos a else negsuc (2 ^ 32 - 1 - a)

-- `>>` on an `int32_t`: the sign fills in from the left.
abbrev pub sra32 : ℕ → ℕ → ℕ
sra32 a k = if ltb a (2 ^ 31) then a / 2 ^ k else 2 ^ 32 - 1 - (2 ^ 32 - 1 - a) / 2 ^ k

-- `~x` on a `uint32_t`.
abbrev pub not32 : ℕ → ℕ
not32 a = 2 ^ 32 - 1 - a

-- `static_cast<uint64_t>` of an `int32_t`: the sign is extended.
abbrev pub sext64 : ℕ → ℕ
sext64 a = if ltb a (2 ^ 31) then a else a + 2 ^ 64 - 2 ^ 32
