-- ===== src/Base/Text.antt =====
-- Text as the list of its characters, with what the code uses of `std::string`, `std::to_string` and
-- the stream manipulators.
use Prim.Native.Nat.{ℕ, zero, suc, ◌+◌, ◌-◌, ◌/◌, ◌%◌, ◌^◌}
use Prim.Native.Char.{code}
use Prim.Native.String.{String}
use mathlib.Core.Path.{◌≡◌, refl}
use mathlib.Core.Bool.{Bool, true, false, ◌&&◌}
use mathlib.Core.List.{List, [], ◌∷◌, ◌++◌}
use perf_sim.Base.Tests.{ltb, leb, ◌==◌, if◌then◌else◌}
use perf_sim.Base.Lists.{replicate}
use perf_sim.Base.Outcome.{Result, ok, err, length_error}

abbrev pub Text : Type 0
Text = List ℕ

-- The characters of a literal.
abbrev pub codes : String → Text
codes String.[] = []
codes (String.◌∷◌ c s) = code c ∷ codes s

-- `a == b` on strings.
abbrev pub same_text : Text → Text → Bool
same_text [] [] = true
same_text (a ∷ s) (b ∷ t) = (a == b) && same_text s t
same_text _ _ = false

-- `std::string(12 - len, ' ')`: the difference is unsigned, and a huge one throws.
unfoldable pub spaces_upto : ℕ → ℕ → Result Text
spaces_upto width len =
    if leb len width then ok (replicate (width - len) b' ') else err length_error

-- One digit in base 16, and the `n` lowest digits.
unfoldable pub hex_digit : ℕ → ℕ
hex_digit d = if ltb d 10 then b'0' + d else b'a' + (d - 10)

unfoldable pub hex_digits : ℕ → ℕ → Text
unfolding hex_digit
hex_digits zero v = []
hex_digits (suc n) v = hex_digits n (v / 16) ++ hex_digit (v % 16) ∷ []

-- The decimal digits of a number below 10 ^ `fuel`, without leading zeros.
unfoldable pub decimal : ℕ → ℕ → Text
decimal zero v = []
decimal (suc fuel) v =
    let rest = decimal fuel (v / 10) in
    if ltb v 10 then (b'0' + v) ∷ [] else rest ++ (b'0' + v % 10) ∷ []

-- `std::to_string` on an unsigned number of at most 64 bits, which has at most 20 digits.
unfoldable pub to_string : ℕ → Text
unfolding decimal
to_string v = decimal 20 v

-- `std::to_string` on an `int32_t`.
unfoldable pub to_string_int : ℕ → Text
unfolding to_string
to_string_int v = if ltb v (2 ^ 31) then to_string v else b'-' ∷ to_string (2 ^ 32 - v)

minus_one : to_string_int (2 ^ 32 - 1) ≡ codes "-1"
unfolding to_string_int
minus_one = refl

hex_word : hex_digits 8 0xdeadbeef ≡ codes "deadbeef"
unfolding hex_digits
hex_word = refl
