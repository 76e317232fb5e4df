-- ===== src/Stage/Update.antt =====
-- Stage cells: how long a stop lasts, and what comes after it.
use perf_sim.Base.{ℕ, zero, suc, ◌+◌, ◌^◌, ◌≤◌, ◌<◌, ◌≡◌, refl, sym, ap, ◌∙◌, ◌-◌, ◌%◌, arith}
use native.Mathlib.Numerals.{add-one}
use perf_sim.Stage.{Stage, update, extend}

module _ {ℓ} {T : Type ℓ} where
  -- That many updates one after the other.
  abbrev pub updates : ℕ → T → Stage T → Stage T
  updates zero cleared s = s
  updates (suc n) cleared s = updates n cleared (update cleared s)

  abbrev cell : T → T → ℕ → Stage T
  cell a b c = record { store = a; load = b; stop_count = c }

  update-stopped : (cleared a b : T) (c : ℕ) → update cleared (cell a b (c + 1)) ≡ cell a b c
  unfolding update
  update-stopped cleared a b c = ground arith

  updates-stopped :
      (k : ℕ) (cleared a b : T) (c : ℕ) → updates k cleared (cell a b (c + k)) ≡ cell a b c
  updates-stopped zero cleared a b c = ground arith
  updates-stopped (suc k) cleared a b c =
      let e : c + suc k ≡ c + k + 1 = omega arith in
      rw (e, update-stopped cleared a b (c + k)) (updates-stopped k cleared a b c)

  update-suc : (cleared a b : T) (c : ℕ) → update cleared (cell a b (suc c)) ≡ cell a b c
  update-suc cleared a b c =
      ap (λ (n : ℕ). update cleared (cell a b n)) (sym (add-one c)) ∙ update-stopped cleared a b c

  updates-moved :
      (k : ℕ) (cleared a b : T) → updates (suc k) cleared (cell a b k) ≡ cell cleared a 0
  unfolding update
  updates-moved zero cleared a b = refl
  updates-moved (suc k) cleared a b =
      ap (updates (suc k) cleared) (update-suc cleared a b k) ∙ updates-moved k cleared a b

  -- A running cell that is stopped for n cycles, n below 2 ^ 32, keeps both halves and counts
  -- down in each of them, and the update after these moves the store half to the load half and
  -- clears it.
  pub extend-updates :
      (n k : ℕ) (cleared : T) (s : Stage T)
      → s.stop_count ≡ 0
      → n < 2 ^ 32
      → k ≤ n
      → (updates k cleared (extend s n)
          ≡ record { store = s.store; load = s.load; stop_count = n - k })
        × (updates (suc n) cleared (extend s n)
            ≡ record { store = cleared; load = s.store; stop_count = 0 })
  unfolding extend
  extend-updates n k cleared s run small le =
      let e : (s.stop_count + n) % 2 ^ 32 ≡ n = omega arith in
      let split : n ≡ n - k + k = omega arith in
      (
        rw (ap (cell s.store s.load) (e ∙ split))
            (updates-stopped k cleared s.store s.load (n - k)),
        rw (ap (cell s.store s.load) e) (updates-moved n cleared s.store s.load),
      )
