-- ===== src/Common/Bits.antt =====
-- A Boolean test that was evaluated at each number under a bound holds at all of them.
use Prim.Native.Nat.{ℕ, zero, suc, ◌<◌}
use mathlib.Core.Path.{◌≡◌}
use mathlib.Core.Bool.{Bool, true, ◌&&◌}
use native.Mathlib.Omega.{arith}

module _ (test : ℕ → Bool) where
  unfoldable pub passes_under : ℕ → Bool
  passes_under zero = true
  passes_under (suc bound) = passes_under bound && test bound

  pub passes_under→at : (bound k : ℕ) → k < bound → passes_under bound ≡ true → test k ≡ true
  unfolding passes_under
  passes_under→at zero k low table = absurd (omega arith)
  passes_under→at (suc bound) k low table = ground (arith, passes_under→at bound k)
