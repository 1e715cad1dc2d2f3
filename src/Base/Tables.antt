-- ===== src/Base/Tables.antt =====
-- A test of every number below a bound, by evaluation.
use Prim.Native.Nat.{ℕ, zero, suc, ◌<◌}
use mathlib.Core.Path.{◌≡◌}
use mathlib.Core.Bool.{Bool, true, ◌&&◌}
use native.Mathlib.Omega.{arith}

unfoldable pub all_below : ℕ → (ℕ → Bool) → Bool
all_below zero p = true
all_below (suc n) p = p n && all_below n p

pub all_below_sound : (n : ℕ) (p : ℕ → Bool) (k : ℕ) → all_below n p ≡ true → k < n → p k ≡ true
unfolding all_below
all_below_sound zero p k h lt = absurd (omega arith)
all_below_sound (suc n) p k h lt = ground (arith, all_below_sound n p k)
