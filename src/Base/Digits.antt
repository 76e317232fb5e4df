-- ===== src/Base/Digits.antt =====
-- What a printed number says: its digits, read from the left, give the number back.
use Prim.Native.Nat.{ℕ, zero, suc, ◌+◌, ◌-◌, ◌*◌, ◌/◌, ◌%◌, ◌^◌, ◌<◌}
use mathlib.Core.Path.{◌≡◌, refl, ◌∙◌}
use mathlib.Core.List.{[], ◌∷◌, ◌++◌}
use native.Mathlib.Omega.{arith}
use native.Mathlib.Nat.{pow-suc}
use perf_sim.Base.Tests.{ltb, if◌then◌else◌, Bool-cases}
use mathlib.Core.Logic.{inl, inr}
use perf_sim.Base.Lists.{length, length-append}
use perf_sim.Base.Text.{Text, hex_digit, hex_digits, decimal}

-- The value of a character as a digit, for both bases.
abbrev pub digit_value : ℕ → ℕ
digit_value c = if ltb c b'a' then c - b'0' else c - b'a' + 10

abbrev pub value_from : ℕ → ℕ → Text → ℕ
value_from base acc [] = acc
value_from base acc (c ∷ t) = value_from base (acc * base + digit_value c) t

value_from-append :
    (base acc : ℕ) (s t : Text)
    → value_from base acc (s ++ t) ≡ value_from base (value_from base acc s) t
value_from-append base acc [] t = refl
value_from-append base acc (c ∷ s) t = value_from-append base (acc * base + digit_value c) s t

digit_value-hex_digit : (d : ℕ) → d < 16 → digit_value (hex_digit d) ≡ d
unfolding hex_digit
digit_value-hex_digit d h = ground arith

pub value-hex_digits : (n v : ℕ) → v < 16 ^ n → value_from 16 0 (hex_digits n v) ≡ v
unfolding hex_digits
value-hex_digits zero v h = omega arith
value-hex_digits (suc n) v h =
    value_from-append 16 0 (hex_digits n (v / 16)) (hex_digit (v % 16) ∷ [])
    ∙ omega (
      arith,
      value-hex_digits n (v / 16) (omega (arith, pow-suc 16 n)),
      digit_value-hex_digit (v % 16) (omega arith),
    )

pub value-decimal : (n v : ℕ) → v < 10 ^ n → value_from 10 0 (decimal n v) ≡ v
unfolding decimal
value-decimal zero v h = omega arith
value-decimal (suc n) v h = elim (Bool-cases (ltb v 10)) [
  | inl low ↦ rw low (ground arith)
  | inr high ↦ rw high (
      value_from-append 10 0 (decimal n (v / 10)) ((b'0' + v % 10) ∷ [])
      ∙ ground (arith, value-decimal n (v / 10) (omega (arith, pow-suc 10 n))))
]

pub length-hex_digits : (n v : ℕ) → length (hex_digits n v) ≡ n
unfolding hex_digits
length-hex_digits zero v = refl
length-hex_digits (suc n) v = omega (
  arith,
  length-append {0} (hex_digits n (v / 16)) (hex_digit (v % 16) ∷ []),
  length-hex_digits n (v / 16),
)
