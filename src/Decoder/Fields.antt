-- ===== src/Decoder/Fields.antt =====
-- The fields that `decode` of src/Decoder.cpp cuts out of an instruction word.
use perf_sim.Base.{ℕ, ◌-◌, ◌/◌, ◌%◌, ◌^◌, ◌≡◌}
use perf_sim.Base.Bits.{bit_and_mask}
use perf_sim.Decoder.{field}

-- A field is a range of bits.
pub field-eq : (w shift k : ℕ) → field w shift (2 ^ k - 1) ≡ w / 2 ^ shift % 2 ^ k
unfolding field
field-eq w shift k = bit_and_mask k (w / 2 ^ shift)
