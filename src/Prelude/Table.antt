-- ===== src/Prelude/Table.antt =====
-- A test of every number below a bound, by evaluation.
use Prim.Native.Nat.{ℕ, zero, suc, ◌<◌}
use mathlib.Core.Path.{◌≡◌}
use mathlib.Core.Bool.{Bool, true, ◌&&◌}
use native.Mathlib.Omega.{arith}

unfoldable pub holds_below : ℕ → (ℕ → Bool) → Bool
holds_below zero p = true
holds_below (suc n) p = holds_below n p && p n

pub holds_below_at : (n : ℕ) (p : ℕ → Bool) (i : ℕ) → holds_below n p ≡ true → i < n → p i ≡ true
unfolding holds_below
holds_below_at zero p i h lt = absurd (omega arith)
holds_below_at (suc n) p i h lt = ground (arith, holds_below_at n p i)
