-- ===== src/Common/Table.antt =====
-- A test of every number below a bound, for the entries of a table.
use Prim.Native.Nat.{ℕ, zero, suc, ◌<◌}
use mathlib.Core.Path.{◌≡◌}
use mathlib.Core.Bool.{Bool, true, ◌&&◌}
use native.Mathlib.Omega.{arith}

unfoldable pub all_below : (ℕ → Bool) → ℕ → Bool
all_below test zero = true
all_below test (suc n) = test n && all_below test n

pub all_below_lem : (test : ℕ → Bool) (n c : ℕ) → all_below test n ≡ true → c < n → test c ≡ true
unfolding all_below
all_below_lem test zero c h k = absurd (omega arith)
all_below_lem test (suc n) c h k = grind (arith, all_below_lem test n c)
