-- ===== src/Stage.antt =====
-- headers/Stage.h: the pipeline registers and the double-buffered cell that holds each of them.
-- `DE`, `EM` and `MW` have the same fields (`inst` of `MW` is `instr` here), and share a record; a
-- pointer to an instruction is the number of its object, `none` for `nullptr`.
pub mod Update
use perf_sim.Base.{ℕ, ◌-◌, ◌+◌, Bool, true, false, Option, none, if◌then◌else◌, ltb, u32}

pub record Wf : Type 0 where
  pub is_stall : Bool
  pub hazard_stall : Bool
  pub is_jump : Bool
  pub pc : ℕ
  pub pc_jump : ℕ

pub record Fd : Type 0 where
  pub is_stall : Bool
  pub pc : ℕ
  pub instr : ℕ
  pub hazard_stall : Bool

pub record Latch : Type 0 where
  pub is_stall : Bool
  pub hazard_stall : Bool
  pub pc : ℕ
  pub instr : Option ℕ

-- The values after `clear()`, which are the initial ones too.
abbrev pub cleared_wf : Wf
cleared_wf = record { is_stall = false; hazard_stall = false; is_jump = false; pc = 0; pc_jump = 0 }

abbrev pub cleared_fd : Fd
cleared_fd = record { is_stall = true; pc = 0; instr = 0; hazard_stall = false }

abbrev pub cleared_latch : Latch
cleared_latch = record { is_stall = true; hazard_stall = false; pc = 0; instr = none }

pub record Stage {ℓ} (T : Type ℓ) : Type ℓ where
  pub store : T
  pub load : T
  pub stop_count : ℕ

module _ {ℓ} {T : Type ℓ} where
  -- The constructor: both buffers hold a `T` by default.
  abbrev pub new_stage : T → Stage T
  new_stage initial = record { store = initial; load = initial; stop_count = 0 }

  unfoldable pub extend : Stage T → ℕ → Stage T
  extend s count = record s { stop_count = u32 (s.stop_count + count) }

  unfoldable pub is_stop : Stage T → Bool
  is_stop s = ltb 0 s.stop_count

  -- The buffers are swapped and the new `store` is cleared, unless the stage is stopped.
  unfoldable pub update : T → Stage T → Stage T
  update cleared s =
      if ltb 0 s.stop_count
      then record s { stop_count = s.stop_count - 1 }
      else record { store = cleared; load = s.store; stop_count = s.stop_count }
