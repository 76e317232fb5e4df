-- ===== src/Memory/Bytes.antt =====
-- Words and their bytes, and copies into and out of the memory.
use perf_sim.Base.{
  ℕ, zero, suc, ◌+◌, ◌*◌, ◌/◌, ◌%◌, ◌^◌, ◌≤◌, ◌<◌, ◌≡◌, ◌⊎◌, refl, ap, ◌∙◌, List, [], ◌∷◌, arith,
  ne→==, ==_self,
}
use mathlib.Core.Path.{ap₂}
use native.Mathlib.Nat.{pow-suc, div-div-eq-div-mul, div-add-mod', mul_comm}
use perf_sim.Base.{length}
use perf_sim.Memory.{to_bytes, of_bytes, get_bytes, put_bytes}

pub length-to_bytes : (n w : ℕ) → length (to_bytes n w) ≡ n
unfolding to_bytes
length-to_bytes zero w = refl
length-to_bytes (suc n) w = ap suc (length-to_bytes n (w / 256))

pub length-get_bytes : (f : ℕ → ℕ) (a n : ℕ) → length (get_bytes f a n) ≡ n
unfolding get_bytes
length-get_bytes f a zero = refl
length-get_bytes f a (suc n) = ap suc (length-get_bytes f (suc a) n)

pow-256-suc : (n : ℕ) → 256 ^ suc n ≡ 256 ^ n * 256
pow-256-suc n = pow-suc 256 n

-- The first `n` bytes of a word make the word again, cut to `n` bytes.
pub of_bytes-to_bytes : (n w : ℕ) → of_bytes (to_bytes n w) ≡ w % 256 ^ n
unfolding of_bytes to_bytes
of_bytes-to_bytes zero w = omega arith
of_bytes-to_bytes (suc n) w =
    let p = 256 ^ n in
    rw (of_bytes-to_bytes n (w / 256), pow-256-suc n)
      (omega (
        arith,
        div-add-mod' w (p * 256),
        div-add-mod' (w / 256) p,
        div-div-eq-div-mul w 256 p ∙ ap (λ (t : ℕ). w / t) (mul_comm 256 p),
        ap (λ (t : ℕ). t * p) (div-div-eq-div-mul w 256 p ∙ ap (λ (t : ℕ). w / t) (mul_comm 256 p)),
      ))

-- A byte that lies outside a copy keeps its value.
pub put_bytes_outside :
    (f : ℕ → ℕ) (a : ℕ) (bs : List ℕ) (j : ℕ)
    → (j < a) ⊎ (a + length bs ≤ j)
    → put_bytes f a bs j ≡ f j
unfolding put_bytes
put_bytes_outside f a [] j h = refl
put_bytes_outside f a (b ∷ bs) j h = ground (arith, put_bytes_outside f (suc a) bs j)

-- A copy out depends on the bytes that it copies only.
pub get_bytes_congr :
    (f g : ℕ → ℕ) (a n : ℕ)
    → ((j : ℕ) → a ≤ j → j < a + n → f j ≡ g j)
    → get_bytes f a n ≡ get_bytes g a n
unfolding get_bytes
get_bytes_congr f g a zero h = refl
get_bytes_congr f g a (suc n) h =
    ap₂ ◌∷◌ (h a (omega arith) (omega arith))
      (get_bytes_congr f g (suc a) n (λ j p q. h j (omega arith) (omega arith)))

-- What has been copied in is what is copied out.
pub get_bytes-put_bytes :
    (f : ℕ → ℕ) (a : ℕ) (bs : List ℕ) → get_bytes (put_bytes f a bs) a (length bs) ≡ bs
unfolding get_bytes put_bytes
get_bytes-put_bytes f a [] = refl
get_bytes-put_bytes f a (b ∷ bs) = ap₂ ◌∷◌ (rw (==_self a)) (
    get_bytes_congr _ _ (suc a) (length bs) (λ j p q. rw (ne→== j a (omega arith)))
    ∙ get_bytes-put_bytes f (suc a) bs)

-- The word that `n` bytes make.
pub of_bytes-lt :
    (f : ℕ → ℕ) (a n : ℕ) → ((j : ℕ) → f j < 256) → of_bytes (get_bytes f a n) < 256 ^ n
unfolding of_bytes get_bytes
of_bytes-lt f a zero h = omega arith
of_bytes-lt f a (suc n) h = omega (arith, h a, pow-256-suc n, of_bytes-lt f (suc a) n h)
