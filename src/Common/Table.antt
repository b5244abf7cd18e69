-- ===== src/Common/Table.antt =====
-- Facts about every number below a small bound, by evaluation.
use Prim.Native.Nat.{ℕ, zero, suc, ◌<◌}
use mathlib.Core.Path.{◌≡◌}
use mathlib.Core.Bool.{Bool, true, false}
use native.Mathlib.Omega.{arith}
use rsiprtp.Common.Tests.{if◌then◌else◌}

unfoldable pub every_below : (ℕ → Bool) → ℕ → Bool
every_below test zero = true
every_below test (suc k) = let rest = every_below test k in if test k then rest else false

-- What a table of `k` rows checks holds for each of them.
pub every_below-row :
    (test : ℕ → Bool) (k row : ℕ) → every_below test k ≡ true → row < k → test row ≡ true
unfolding every_below
every_below-row test zero row table bound = elim bound [ ]
every_below-row test (suc k) row table bound = ground (arith, every_below-row test k row)
