-- ===== src/Base/Tables.antt =====
-- Tests of a property at every number of a range, by evaluation.
use Prim.Native.Nat.{ℕ, zero, suc, ◌+◌, ◌≤◌, ◌<◌}
use mathlib.Core.Path.{◌≡◌}
use mathlib.Core.Bool.{Bool, true, ◌&&◌}
use native.Mathlib.Omega.{arith}

-- Whether the test holds at the `count` numbers from `from` on.
unfoldable pub holds_on : (ℕ → Bool) → ℕ → ℕ → Bool
holds_on test from zero = true
holds_on test from (suc count) = test from && holds_on test (from + 1) count

pub holds_on-true :
    (test : ℕ → Bool) (count from i : ℕ)
    → holds_on test from count ≡ true
    → from ≤ i
    → i < from + count
    → test i ≡ true
unfolding holds_on
holds_on-true test zero from i all low high = absurd (omega arith)
holds_on-true test (suc count) from i all low high =
    ground (arith, holds_on-true test count (from + 1) i)
