-- ===== src/Executors/Branches.antt =====
-- The six conditional branches of src/Executors.cpp: the verdict and the target.
use perf_sim.Base.{
  ℕ, ◌≤◌, ◌<◌, ◌≡◌, ◌≢◌, ◌↔◌, Bool, true, not, arith, Result, ok, ltb, ◌==◌, add32, signed32,
}
use perf_sim.Base.Int.{◌<ℤ◌, ◌≤ℤ◌}
use perf_sim.Types.{type_b}
use perf_sim.Instruction.{Instruction}
use perf_sim.Executors.{beq, bne, blt, bge, bltu, bgeu}

-- The branch is decided by `P`, its target is the immediate past its own address, and nothing else
-- changes.
abbrev pub Decides : Result Instruction → Instruction → Type 0 → Type 0
Decides r i P =
    (b : Bool) × (r ≡ ok (record i { branch_addr = add32 i.imm i.pc; br_is_taken = b }))
    × ((b ≡ true) ↔ P)

ltb_iff : (a b : ℕ) → (ltb a b ≡ true) ↔ (a < b)
ltb_iff a b = ground arith

not-ltb_iff : (a b : ℕ) → (not (ltb a b) ≡ true) ↔ (b ≤ a)
not-ltb_iff a b = ground arith

==_iff : (a b : ℕ) → ((a == b) ≡ true) ↔ (a ≡ b)
==_iff a b = ground arith

not-==_iff : (a b : ℕ) → (not (a == b) ≡ true) ↔ (a ≢ b)
not-==_iff a b = ground arith

module _ (i : Instruction) (t : i.type ≡ type_b) (br : i.is_branch ≡ true) where
  -- On a branch object of type B, each of the six branches is taken exactly where its relation
  -- holds between the two operands, has the sum of its address and its immediate for a target,
  -- and changes nothing else.
  pub branches-Decide :
      let a = i.rs1.value in
      let b = i.rs2.value in
      Decides (beq i) i (a ≡ b)
      × Decides (bne i) i (a ≢ b)
      × Decides (blt i) i (signed32 a <ℤ signed32 b)
      × Decides (bge i) i (signed32 b ≤ℤ signed32 a)
      × Decides (bltu i) i (a < b)
      × Decides (bgeu i) i (b ≤ a)
  unfolding beq bne blt bge bltu bgeu
  branches-Decide = (
    (_, rw (t, br), ==_iff _ _),
    (_, rw (t, br), not-==_iff _ _),
    (_, rw (t, br), ltb_iff _ _),
    (_, rw (t, br), not-ltb_iff _ _),
    (_, rw (t, br), ltb_iff _ _),
    (_, rw (t, br), not-ltb_iff _ _),
  )
