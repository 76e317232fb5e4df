-- ===== src/Executors/Frame.antt =====
-- What every executor leaves alone, and when an executor can fail.
use perf_sim.Base.{◌<◌, ◌≡◌, refl, Bool, true, false, Option, some, none, arith, Result, ok, err}
use perf_sim.Types.{InstrType, type_r, type_i, type_s, type_b, type_u, type_j, type_system}
use perf_sim.Instruction.{Instruction, Executor}
use perf_sim.Executors.{run_executor, execute, execute_pointer}

-- An object without its results: `rd.value`, the target, the verdict and the access's address.
abbrev pub frame : Instruction → Instruction
frame i = record i {
  rd = record i.rd { value = 0 };
  branch_addr = 0;
  br_is_taken = false;
  acc_addr = 0;
}

-- An executor that returns leaves the rest of the object alone.
abbrev Framed : Instruction → Result Instruction → Type 0
Framed i (ok j) = frame j ≡ frame i
Framed i (err e) = Unit

run_executor-Framed : (e : Executor) (i : Instruction) → Framed i (run_executor e i)
unfolding run_executor
run_executor-Framed Executor.lui i = ground arith
run_executor-Framed _ i = ground arith

-- The class whose object an executor casts to.
abbrev pub class_of : Executor → InstrType
class_of Executor.lui = type_u
class_of Executor.auipc = type_u
class_of Executor.jal = type_j
class_of Executor.beq = type_b
class_of Executor.bne = type_b
class_of Executor.blt = type_b
class_of Executor.bge = type_b
class_of Executor.bltu = type_b
class_of Executor.bgeu = type_b
class_of Executor.store = type_s
class_of Executor.add = type_r
class_of Executor.sub = type_r
class_of Executor.sll = type_r
class_of Executor.slt = type_r
class_of Executor.sltu = type_r
class_of Executor.xor = type_r
class_of Executor.srl = type_r
class_of Executor.sra = type_r
class_of Executor.or = type_r
class_of Executor.and = type_r
class_of Executor.ecall = type_system
class_of _ = type_i

-- The executors that set a jump target, and those that shift by a register.
abbrev pub sets_target : Executor → Bool
sets_target Executor.jal = true
sets_target Executor.jalr = true
sets_target Executor.beq = true
sets_target Executor.bne = true
sets_target Executor.blt = true
sets_target Executor.bge = true
sets_target Executor.bltu = true
sets_target Executor.bgeu = true
sets_target _ = false

abbrev pub shifts_by_register : Executor → Bool
shifts_by_register Executor.sll = true
shifts_by_register Executor.srl = true
shifts_by_register Executor.sra = true
shifts_by_register _ = false

abbrev is_ok {ℓ} : {A : Type ℓ} → Result A → Bool
is_ok (ok a) = true
is_ok (err e) = false

run_executor_ok :
    (e : Executor) (i : Instruction)
    → i.type ≡ class_of e
    → (sets_target e ≡ true → i.is_branch ≡ true)
    → (shifts_by_register e ≡ true → i.rs2.value < 32)
    → is_ok (run_executor e i) ≡ true
unfolding run_executor
run_executor_ok Executor.lui i t b s = rw t
run_executor_ok _ i t b s = ground arith

Framed-ok : (i j : Instruction) (r : Result Instruction) → Framed i r → r ≡ ok j → frame j ≡ frame i
Framed-ok i j (ok k) f e = ground arith
Framed-ok i j (err x) f e = cc

-- Where Instruction::execute returns, of the object only rd.value, the jump target, the verdict
-- of a branch and the address of an access have changed.
pub execute-frame : (i j : Instruction) → execute i ≡ ok j → frame j ≡ frame i
unfolding execute
execute-frame i j h = go i.main_executor h
  where
    go : (e : Option Executor) → execute_pointer e i ≡ ok j → frame j ≡ frame i
    go none h = ground arith
    go (some e) h = Framed-ok i j (run_executor e i) (run_executor-Framed e i) h

is_ok-value {ℓ} : {A : Type ℓ} (r : Result A) → is_ok r ≡ true → (a : A) × (r ≡ ok a)
is_ok-value (ok a) h = (a, refl)
is_ok-value (err e) h = cc

-- An executor returns on every object of its class that is a branch if the executor sets a
-- target, and whose second operand is below 32 if it shifts by a register.
pub run_executor_total :
    (e : Executor) (i : Instruction)
    → i.type ≡ class_of e
    → (sets_target e ≡ true → i.is_branch ≡ true)
    → (shifts_by_register e ≡ true → i.rs2.value < 32)
    → (j : Instruction) × (run_executor e i ≡ ok j)
run_executor_total e i t b s = is_ok-value (run_executor e i) (run_executor_ok e i t b s)
