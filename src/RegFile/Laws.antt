-- ===== src/RegFile/Laws.antt =====
-- The register file: the zero register, the locks, and the bounds of an index.
use perf_sim.Base.{
  ℕ, ◌<◌, ◌≡◌, ◌≢◌, arith, IsWord, add32, sub32, ok, err, num_regs_error, undefined, lt→ltb, ge→ltb,
  ==_self, ne→==,
}
use perf_sim.Types.{RegName, access_write, register_name_zero}
use perf_sim.Instruction.{Register}
use perf_sim.RegFile.{RegFile, get_reg, write, update}

-- The register file after a register has been claimed for writing, and after it has been written.
abbrev pub claim : RegFile → RegName → RegFile
claim rf num = record rf { reg_locker = update rf.reg_locker num (sub32 (rf.reg_locker num) 1) }

abbrev pub put : RegFile → Register → RegFile
put rf reg = record rf {
  regs = update rf.regs reg.name reg;
  reg_locker = update rf.reg_locker reg.name (add32 (rf.reg_locker reg.name) 1);
}

pub get_reg-write :
    (rf : RegFile) (num : RegName)
    → num < rf.num_regs
    → num ≢ register_name_zero
    → get_reg rf num access_write ≡ ok (rf.regs num, claim rf num)
unfolding get_reg
get_reg-write rf num small nonzero = rw (lt→ltb num rf.num_regs small, ne→== num 0 nonzero)

pub write_lem :
    (rf : RegFile) (reg : Register)
    → reg.name < rf.num_regs
    → reg.name ≢ register_name_zero
    → write rf reg ≡ ok (put rf reg)
unfolding write
write_lem rf reg small nonzero = rw (
  ge→ltb rf.num_regs reg.name (omega arith),
  ne→== reg.name 0 nonzero,
  lt→ltb reg.name rf.num_regs small,
)

add32-sub32 : (l : ℕ) → IsWord l → add32 (sub32 l 1) 1 ≡ l
add32-sub32 l h = omega arith

-- Claiming a register of the file other than zero for writing takes one off its lock, the write
-- that follows stores the value and restores the lock, and the value and the lock of any other
-- register stay.
pub write-get_reg :
    (rf : RegFile) (num other : RegName) (v : ℕ)
    → num < rf.num_regs
    → num ≢ register_name_zero
    → other ≢ num
    → IsWord (rf.reg_locker num)
    → (claimed written : RegFile) × (get_reg rf num access_write ≡ ok (rf.regs num, claimed))
      × (claimed.reg_locker num ≡ sub32 (rf.reg_locker num) 1)
      × (write claimed (record { value = v; name = num }) ≡ ok written)
      × (written.regs num ≡ record { value = v; name = num })
      × (written.reg_locker num ≡ rf.reg_locker num)
      × (written.regs other ≡ rf.regs other)
      × (written.reg_locker other ≡ rf.reg_locker other)
write-get_reg rf num other v small nonzero ne w =
    let self = ==_self num in
    let reg : Register = record { value = v; name = num } in
    (
      claim rf num,
      put (claim rf num) reg,
      get_reg-write rf num small nonzero,
      rw self,
      write_lem (claim rf num) reg small nonzero,
      rw self,
      rw self (add32-sub32 (rf.reg_locker num) w),
      rw (ne→== other num ne),
      ground (arith, ne→== other num ne),
    )

-- In a file with at least one register, register zero is never locked and never written; a write
-- behind the file throws, except just behind its last register, where it is undefined.
pub write_refused :
    (rf : RegFile) (v num : ℕ)
    → 0 < rf.num_regs
    → rf.num_regs < num
    → (get_reg rf 0 access_write ≡ ok (rf.regs 0, rf))
      × (write rf (record { value = v; name = 0 }) ≡ ok rf)
      × (write rf (record { value = v; name = num }) ≡ err num_regs_error)
      × (write rf (record { value = v; name = rf.num_regs }) ≡ err undefined)
unfolding get_reg write
write_refused rf v num pos over = (
  rw (lt→ltb 0 rf.num_regs pos),
  rw (ge→ltb rf.num_regs 0 (omega arith)),
  rw (lt→ltb rf.num_regs num over),
  rw (ge→ltb rf.num_regs rf.num_regs (omega arith), ne→== rf.num_regs 0 (omega arith)),
)
