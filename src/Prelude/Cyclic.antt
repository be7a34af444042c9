-- ===== src/Prelude/Cyclic.antt =====
-- Stepping round a ring of `n` places, as the selection of an overlay does.
use Prim.Native.Nat.{ℕ, zero, suc, ◌+◌, ◌-◌, ◌%◌, ◌<◌}
use mathlib.Core.Path.{◌≡◌, ◌∙◌}
use native.Mathlib.Omega.{arith}
use native.Mathlib.Decide.{ℕ_discrete}
use native.Mathlib.Nat.{mod-eq_of_lt}

step_wrap : (s n : ℕ) → suc s ≡ n → (s + 1) % n ≡ 0
step_wrap s n h = grind arith

back_wrap : (s n : ℕ) → s < n → (s + n) % n ≡ s
back_wrap s n h = grind arith

pub prev_next : (s n : ℕ) → s < n → ((s + 1) % n + n - 1) % n ≡ s
prev_next s n h = elim (ℕ_discrete (suc s) n) [
  | yes e ↦
      let last : 0 + n - 1 ≡ s = omega arith in rw (step_wrap s n e) (rw last (mod-eq_of_lt h))
  | no ne ↦
      let back : s + 1 + n - 1 ≡ s + n = omega arith in
      rw (mod-eq_of_lt {n = s + 1} {m = n} (omega arith)) (rw back (back_wrap s n h))
]

pub next_prev : (s n : ℕ) → s < n → ((s + n - 1) % n + 1) % n ≡ s
next_prev zero n h =
    rw (mod-eq_of_lt {n = zero + n - 1} {m = n} (omega arith))
      (step_wrap (zero + n - 1) n (omega arith))
next_prev (suc t) n h =
    let back : suc t + n - 1 ≡ t + n = omega arith in
    rw back (
      rw (back_wrap t n (omega arith))
        (mod-eq_of_lt {n = t + 1} {m = n} (omega arith) ∙ omega arith))
