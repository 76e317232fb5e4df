-- ===== src/RegFile.antt =====
-- headers/RegFile.h and src/RegFile.cpp. The two vectors are functions of the index; an index that is
-- not below `num_regs` is `undefined`. A lock is an `int32_t` that counts down from 0 for each
-- instruction in flight that will write the register.
pub mod Laws
use perf_sim.Base.{
  ℕ, Result, ok, err, undefined, num_regs_error, if◌then◌else◌, ◌==◌, ltb, not, ◌&&◌, add32, sub32,
}
use perf_sim.Types.{AccessType, RegName, access_write, same_access, register_name_zero}
use perf_sim.Instruction.{Register}

pub record RegFile : Type 0 where
  pub num_regs : ℕ
  pub regs : ℕ → Register
  pub reg_locker : ℕ → ℕ

-- The constructor: each register has its number for a name.
unfoldable pub new_reg_file : ℕ → RegFile
new_reg_file n = record {
  num_regs = n;
  regs = λ i. record { value = 0; name = i };
  reg_locker = λ i. 0;
}

abbrev pub update {ℓ} : {A : Type ℓ} → (ℕ → A) → ℕ → A → ℕ → A
update f a v j = if j == a then v else f j

unfoldable pub get_reg : RegFile → RegName → AccessType → Result (Register × RegFile)
get_reg rf num acc =
    if ltb num rf.num_regs
    then ok (
      rf.regs num,
      if same_access acc access_write && not (num == register_name_zero)
          then record rf { reg_locker = update rf.reg_locker num (sub32 (rf.reg_locker num) 1) }
          else rf,
    )
    else err undefined

unfoldable pub is_lock : RegFile → ℕ → Result ℕ
is_lock rf num = if ltb num rf.num_regs then ok (rf.reg_locker num) else err undefined

unfoldable pub write : RegFile → Register → Result RegFile
write rf reg =
    let num = reg.name in
    if ltb rf.num_regs num
    then err num_regs_error
    else if num == register_name_zero
    then ok rf
    else if ltb num rf.num_regs
    then ok (record rf {
      regs = update rf.regs num reg;
      reg_locker = update rf.reg_locker num (add32 (rf.reg_locker num) 1);
    })
    else err undefined
