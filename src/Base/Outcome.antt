-- ===== src/Base/Outcome.antt =====
-- Outcomes of the code that can fail: the exceptions that it throws, and `undefined` for what C++
-- leaves undefined (a null pointer used, an index out of range, a shift by more than the width).
use mathlib.Core.Path.{◌≡◌, refl, subst}
use mathlib.Core.Bool.{Bool, true, false}
use mathlib.Core.Option.{Option, none, some}

pub data Error : Type 0 where
  out_of_memory num_regs_error wrong_access load_hazart sign_extend_error : Error
  thrown_int pipeline_wrong_id undefined : Error
  log_is_null could_not_open_log log_error length_error : Error
  exit_failure no_phdr lseek_failed read_failed : Error

-- The outcome of a call: its value, or what it ended with.
pub data Result {ℓ} (X : Type ℓ) : Type ℓ where
  err : Error → Result X
  ok : X → Result X

infixl 5 ◌>>=◌ ◌>>◌
abbrev pub ◌>>=◌ {ℓ κ} : {X : Type ℓ} {Y : Type κ} → Result X → (X → Result Y) → Result Y
err e >>= k = err e
ok x >>= k = k x

-- A pointer that must not be null.
abbrev pub deref {ℓ} : {A : Type ℓ} → Option A → Result A
deref none = err undefined
deref (some a) = ok a

-- One statement after the other.
abbrev pub ◌>>◌ {ℓ} : {Y : Type ℓ} → Result (Unit {0}) → Result Y → Result Y
first >> second = first >>= λ _. second

-- The statement `if (!b) throw e;`.
abbrev pub guard : Bool → Error → Result (Unit {0})
guard false e = err e
guard true e = ok tt

-- `P` holds of the value, if there is one.
abbrev pub Post {ℓ κ} : {A : Type ℓ} → (A → Type κ) → Result A → Type κ
Post P (ok a) = P a
Post P (err e) = Unit

module _ {ℓ κ μ ν} {A : Type ℓ} {B : Type κ} where
  pub Post-bind :
      (P : A → Type μ) (Q : B → Type ν) (r : Result A) (f : A → Result B)
      → Post P r
      → ((a : A) → P a → Post Q (f a))
      → Post Q (r >>= f)
  Post-bind P Q (ok a) f h k = k a h
  Post-bind P Q (err e) f h k = tt

module _ {ℓ κ μ} {A : Type ℓ} where
  pub Post-mono :
      (P : A → Type κ) (Q : A → Type μ) (r : Result A) → Post P r → ((a : A) → P a → Q a) → Post Q r
  Post-mono P Q (ok a) h k = k a h
  Post-mono P Q (err e) h k = tt

pub Post-ok {ℓ κ} : {A : Type ℓ} (P : A → Type κ) (r : Result A) {a : A} → Post P r → r ≡ ok a → P a
Post-ok P r h e = subst (Post P) e h

pub >>=_assoc {ℓ κ μ} :
    {X : Type ℓ} {Y : Type κ} {Z : Type μ} (m : Result X) (j : X → Result Y) (k : Y → Result Z)
    → (m >>= j >>= k) ≡ (m >>= λ x. j x >>= k)
>>=_assoc (err e) j k = refl
>>=_assoc (ok x) j k = refl

-- A call and two ways to go on that agree.
pub >>=_congr {ℓ κ} :
    {X : Type ℓ} {Y : Type κ} (m : Result X) {j k : X → Result Y}
    → ((x : X) → j x ≡ k x)
    → (m >>= j) ≡ (m >>= k)
>>=_congr (err e) h = refl
>>=_congr (ok x) h = h x

-- A chain that returned did so in both of its parts.
pub >>=_inv {ℓ κ} :
    {X : Type ℓ} {Y : Type κ} {y : Y} (m : Result X) (k : X → Result Y)
    → (m >>= k) ≡ ok y
    → (x : X) × (m ≡ ok x) × (k x ≡ ok y)
>>=_inv (err e) k h = cc
>>=_inv (ok x) k h = (x, refl, h)
