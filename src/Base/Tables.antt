-- ===== src/Base/Tables.antt =====
-- Statements over a small range of numbers, checked by evaluation.
use mathlib.Core.Bool.{Bool, true, ◌&&◌}
use mathlib.Core.Path.{◌≡◌}
use native.Mathlib.Omega.{arith}
use Prim.Native.Nat.{ℕ, zero, suc, ◌<◌}

-- Whether a test holds from 0 up to a bound.
unfoldable pub passes_to : (ℕ → Bool) → ℕ → Bool
passes_to test zero = true
passes_to test (suc bound) = passes_to test bound && test bound

pub passes_to_sound :
    (test : ℕ → Bool) (bound i : ℕ) → i < bound → passes_to test bound ≡ true → test i ≡ true
unfolding passes_to
passes_to_sound test zero i lt _ = absurd (omega arith)
passes_to_sound test (suc bound) i lt passed = ground (arith, passes_to_sound test bound i)
