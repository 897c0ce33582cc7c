-- ===== src/Prelude/Bits.antt =====
-- Facts over a small range of numbers, checked by evaluation at each of them.
use Prim.Native.Nat.{ℕ, zero, suc, ◌+◌, ◌<◌, ◌≤◌}
use mathlib.Core.Path.{◌≡◌}
use mathlib.Core.Bool.{Bool, true, false}
use osrm_backend.Prelude.Tests.{if◌then◌else◌}
use native.Mathlib.Omega.{arith}

-- Whether the test answers true at each of the `count` numbers from `start` on.
unfoldable pub passes : (ℕ → Bool) → ℕ → ℕ → Bool
passes test start zero = true
passes test start (suc count) =
    let rest = passes test (start + 1) count in if test start then rest else false

pub passes_lem :
    (test : ℕ → Bool) (start count y : ℕ)
    → passes test start count ≡ true
    → start ≤ y
    → y < start + count
    → test y ≡ true
unfolding passes
passes_lem test start zero y e a b = absurd (omega arith)
passes_lem test start (suc count) y e a b = ground (arith, passes_lem test (start + 1) count y)
