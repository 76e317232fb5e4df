-- ===== src/Base/Bits.antt =====
-- The bit operations at variables: one equation for the lowest digit of each, and what follows for
-- masks, shifted masks, bounds and disjoint operands.
use Prim.Native.Nat.{
  ℕ, zero, suc, ◌+◌, ◌-◌, ◌*◌, ◌/◌, ◌%◌, ◌^◌, ◌≤◌, ◌<◌, min, max, bit_and, bit_or, bit_xor, digits,
  bitwise, differ, bit_and-bitwise, bit_or-bitwise, bit_xor-bitwise,
}
use mathlib.Core.Path.{◌≡◌, refl, ap}
use native.Mathlib.Omega.{arith}
use native.Mathlib.Nat.{pow-suc, pow-succ', one-le-pow, div-add-mod, div-div-eq-div-mul}

-- More fuel than digits changes nothing.
enough_digits :
    (z : ℕ → ℕ) (f : ℕ → ℕ → ℕ) (i j a b : ℕ) → a ≤ i → a ≤ j → digits z f i a b ≡ digits z f j a b
enough_digits z f zero zero a b p q = refl
enough_digits z f zero (suc j) zero b p q = refl
enough_digits z f zero (suc j) (suc a) b p q = absurd (omega arith)
enough_digits z f (suc i) zero zero b p q = refl
enough_digits z f (suc i) zero (suc a) b p q = absurd (omega arith)
enough_digits z f (suc i) (suc j) zero b p q = refl
enough_digits z f (suc i) (suc j) (suc a) b p q =
    rw (enough_digits z f i j (suc a / 2) (b / 2) (omega arith) (omega arith))

bitwise_step :
    (z : ℕ → ℕ) (f : ℕ → ℕ → ℕ) (a b : ℕ)
    → bitwise z f (suc a) b ≡ bitwise z f (suc a / 2) (b / 2) * 2 + f (suc a % 2) (b % 2)
bitwise_step z f a b =
    omega (arith, enough_digits z f a (suc a / 2) (suc a / 2) (b / 2) (omega arith) (omega arith))

pub bit_xor_step : (x y : ℕ) → bit_xor x y ≡ bit_xor (x / 2) (y / 2) * 2 + differ (x % 2) (y % 2)
bit_xor_step zero y = simp bit_xor-bitwise (omega arith)
bit_xor_step (suc x) y = simp bit_xor-bitwise (bitwise_step (λ d. d) differ x y)

pub bit_or_step : (x y : ℕ) → bit_or x y ≡ bit_or (x / 2) (y / 2) * 2 + max (x % 2) (y % 2)
bit_or_step zero y = simp bit_or-bitwise (omega arith)
bit_or_step (suc x) y = simp bit_or-bitwise (bitwise_step (λ d. d) max x y)

pub bit_and_step : (x y : ℕ) → bit_and x y ≡ bit_and (x / 2) (y / 2) * 2 + min (x % 2) (y % 2)
bit_and_step zero y = simp bit_and-bitwise (omega arith)
bit_and_step (suc x) y = simp bit_and-bitwise (bitwise_step (λ d. 0) min x y)

two-pow-suc : (k : ℕ) → 2 ^ suc k ≡ 2 ^ k * 2
two-pow-suc k = omega (arith, pow-suc 2 k)

mul-two-pow-suc : (m k : ℕ) → m * 2 ^ suc k ≡ m * 2 ^ k * 2
mul-two-pow-suc m k = omega (arith, ap (λ (t : ℕ). m * t) (two-pow-suc k))

-- The digit of two digits.
differ-lt : (x y : ℕ) → x < 2 → y < 2 → differ x y < 2
differ-lt zero y p q = q
differ-lt (suc zero) zero p q = omega arith
differ-lt (suc zero) (suc zero) p q = omega arith
differ-lt (suc zero) (suc (suc y)) p q = absurd (omega arith)
differ-lt (suc (suc x)) y p q = absurd (omega arith)

-- None of the three sets a bit that both operands lack.
pub bit_and-lt : (k a b : ℕ) → a < 2 ^ k → bit_and a b < 2 ^ k
bit_and-lt zero zero b h = omega (arith, bit_and-bitwise 0 b)
bit_and-lt zero (suc a) b h = absurd (omega arith)
bit_and-lt (suc k) a b h = omega (
  arith,
  bit_and_step a b,
  two-pow-suc k,
  bit_and-lt k (a / 2) (b / 2) (omega (arith, two-pow-suc k)),
)

pub bit_or-lt : (k a b : ℕ) → a < 2 ^ k → b < 2 ^ k → bit_or a b < 2 ^ k
bit_or-lt zero zero zero h g = omega (arith, bit_or-bitwise 0 0)
bit_or-lt zero zero (suc b) h g = absurd (omega arith)
bit_or-lt zero (suc a) b h g = absurd (omega arith)
bit_or-lt (suc k) a b h g =
    let e = two-pow-suc k in
    omega (arith, bit_or_step a b, bit_or-lt k (a / 2) (b / 2) (omega arith) (omega arith))

pub bit_xor-lt : (k a b : ℕ) → a < 2 ^ k → b < 2 ^ k → bit_xor a b < 2 ^ k
bit_xor-lt zero zero zero h g = omega (arith, bit_xor-bitwise 0 0)
bit_xor-lt zero zero (suc b) h g = absurd (omega arith)
bit_xor-lt zero (suc a) b h g = absurd (omega arith)
bit_xor-lt (suc k) a b h g =
    let e = two-pow-suc k in
    omega (
      arith,
      bit_xor_step a b,
      differ-lt (a % 2) (b % 2) (omega arith) (omega arith),
      bit_xor-lt k (a / 2) (b / 2) (omega arith) (omega arith),
    )

bit_and-zero_upto : (n a : ℕ) → a ≤ n → bit_and a 0 ≡ 0
bit_and-zero_upto n zero h = refl
bit_and-zero_upto zero (suc a) h = absurd (omega arith)
bit_and-zero_upto (suc n) (suc a) h =
    omega (arith, bit_and_step (suc a) 0, bit_and-zero_upto n (suc a / 2) (omega arith))

pub bit_and-zero : (a : ℕ) → bit_and a 0 ≡ 0
bit_and-zero a = bit_and-zero_upto a a (omega arith)

bit_and-fields : (k q r n : ℕ) → r < 2 ^ k → n + 1 ≡ 2 ^ k → bit_and (q * 2 ^ k + r) n ≡ r
bit_and-fields zero q zero zero h e = omega (arith, bit_and-zero (q * 1 + 0))
bit_and-fields zero q (suc r) n h e = absurd (omega arith)
bit_and-fields zero q r (suc n) h e = absurd (omega arith)
bit_and-fields (suc k) q r n h e = ground (
  arith,
  two-pow-suc k,
  mul-two-pow-suc q k,
  bit_and_step (q * 2 ^ suc k + r) n,
  bit_and-fields k q (r / 2) (n / 2) (omega (arith, two-pow-suc k)) (omega (arith, two-pow-suc k)),
)

-- A mask of `k` low bits is the remainder by `2 ^ k`.
pub bit_and_mask : (k a : ℕ) → bit_and a (2 ^ k - 1) ≡ a % 2 ^ k
bit_and_mask k a =
    let p = one-le-pow k 2 (omega arith) in
    ground (
      arith,
      bit_and-fields k (a / 2 ^ k) (a % 2 ^ k) (2 ^ k - 1) (omega arith) (omega arith),
      div-add-mod a (2 ^ k),
    )

-- A mask that is shifted up by `k` reads the bits from `k` on.
pub bit_and_shifted_mask : (k a m : ℕ) → bit_and a (m * 2 ^ k) ≡ bit_and (a / 2 ^ k) m * 2 ^ k
bit_and_shifted_mask zero a m = ground arith
bit_and_shifted_mask (suc k) a m = ground (
  arith,
  mul-two-pow-suc m k,
  mul-two-pow-suc (bit_and (a / 2 ^ suc k) m) k,
  bit_and_step a (m * 2 ^ suc k),
  bit_and_shifted_mask k (a / 2) m,
  div-div-eq-div-mul a 2 (2 ^ k),
  pow-succ' 2 k,
)

digits_differ : (x y : ℕ) → x < 2 → y < 2 → min x y ≡ differ x y → (x ≡ 0) × (y ≡ 0)
digits_differ zero zero p q e = omega arith
digits_differ zero (suc y) p q e = absurd (omega arith)
digits_differ (suc zero) zero p q e = absurd (omega arith)
digits_differ (suc zero) (suc zero) p q e = absurd (omega arith)
digits_differ (suc zero) (suc (suc y)) p q e = absurd (omega arith)
digits_differ (suc (suc x)) y p q e = absurd (omega arith)

and_xor_upto : (n a b : ℕ) → a ≤ n → b ≤ n → bit_and a b ≡ bit_xor a b → (a ≡ 0) × (b ≡ 0)
and_xor_upto zero a b p q e = omega arith
and_xor_upto (suc n) a b p q e =
    let d = differ-lt (a % 2) (b % 2) (omega arith) (omega arith) in
    let low =
      digits_differ (a % 2) (b % 2) (omega arith) (omega arith)
        (omega (arith, bit_and_step a b, bit_xor_step a b)) in
    let high =
      and_xor_upto n (a / 2) (b / 2) (omega arith) (omega arith)
        (omega (arith, bit_and_step a b, bit_xor_step a b)) in
    omega arith

-- `&` and `^` agree only where both operands are zero.
pub and_xor_zero : (a b : ℕ) → bit_and a b ≡ bit_xor a b → (a ≡ 0) × (b ≡ 0)
and_xor_zero a b e = and_xor_upto (max a b) a b (omega arith) (omega arith) e

min_comm : (x y : ℕ) → min x y ≡ min y x
min_comm x y = omega arith

bit_and_comm_upto : (n a b : ℕ) → a ≤ n → b ≤ n → bit_and a b ≡ bit_and b a
bit_and_comm_upto zero zero zero p q = refl
bit_and_comm_upto zero zero (suc b) p q = absurd (omega arith)
bit_and_comm_upto zero (suc a) b p q = absurd (omega arith)
bit_and_comm_upto (suc n) a b p q = omega (
  arith,
  bit_and_step a b,
  bit_and_step b a,
  bit_and_comm_upto n (a / 2) (b / 2) (omega arith) (omega arith),
)

pub bit_and_comm : (a b : ℕ) → bit_and a b ≡ bit_and b a
bit_and_comm a b = bit_and_comm_upto (max a b) a b (omega arith) (omega arith)

-- `|` with a word that has no bit below `k` keeps the bits below `k`.
pub bit_or-high :
    (k q h l : ℕ) → l < 2 ^ k → bit_or (q * 2 ^ k) (h * 2 ^ k + l) ≡ bit_or q h * 2 ^ k + l
bit_or-high zero q h zero p = ground arith
bit_or-high zero q h (suc l) p = absurd (omega arith)
bit_or-high (suc k) q h l p = ground (
  arith,
  two-pow-suc k,
  mul-two-pow-suc q k,
  mul-two-pow-suc h k,
  mul-two-pow-suc (bit_or q h) k,
  bit_or_step (q * 2 ^ suc k) (h * 2 ^ suc k + l),
  bit_or-high k q h (l / 2) (omega (arith, two-pow-suc k)),
)

bit_or-ones_upto : (k n h : ℕ) → n + 1 ≡ 2 ^ k → h < 2 ^ k → bit_or n h ≡ n
bit_or-ones_upto zero zero zero e p = refl
bit_or-ones_upto zero zero (suc h) e p = absurd (omega arith)
bit_or-ones_upto zero (suc n) h e p = absurd (omega arith)
bit_or-ones_upto (suc k) n h e p =
    let t = two-pow-suc k in
    omega (arith, bit_or_step n h, bit_or-ones_upto k (n / 2) (h / 2) (omega arith) (omega arith))

-- `|` with all ones gives all ones.
pub bit_or-ones : (k h : ℕ) → h < 2 ^ k → bit_or (2 ^ k - 1) h ≡ 2 ^ k - 1
bit_or-ones k h p =
    let q = one-le-pow k 2 (omega arith) in bit_or-ones_upto k (2 ^ k - 1) h (omega arith) p
