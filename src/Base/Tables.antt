-- ===== src/Base/Tables.antt =====
-- To check a property of small numbers by evaluation.
use Prim.Native.Nat.{ℕ, zero, suc, ◌<◌}
use mathlib.Core.Path.{◌≡◌}
use mathlib.Core.Bool.{Bool, true, ◌&&◌}
use native.Mathlib.Omega.{arith}

unfoldable pub holds_below : (ℕ → Bool) → ℕ → Bool
holds_below test zero = true
holds_below test (suc limit) = holds_below test limit && test limit

pub test-holds_below :
    (test : ℕ → Bool) (limit v : ℕ) → v < limit → holds_below test limit ≡ true → test v ≡ true
unfolding holds_below
test-holds_below test zero v small all = absurd (omega arith)
test-holds_below test (suc limit) v small all = ground (arith, test-holds_below test limit v)
