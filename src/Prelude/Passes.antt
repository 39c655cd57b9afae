-- ===== src/Prelude/Passes.antt =====
-- Tests over every number below a bound, for tables that the kernel evaluates.
use Prim.Native.Nat.{ℕ, zero, suc, ◌<◌}
use mathlib.Core.Path.{◌≡◌}
use mathlib.Core.Bool.{Bool, true, false}
use native.Mathlib.Omega.{arith}
use onyx_kernel.Prelude.Tests.{if◌then◌else◌}

-- The test `ok` passes for every index under the bound.
unfoldable pub passes : (ℕ → Bool) → ℕ → Bool
passes ok zero = true
passes ok (suc bound) = if ok bound then passes ok bound else false

pub passes-at : (ok : ℕ → Bool) {bound i : ℕ} → i < bound → passes ok bound ≡ true → ok i ≡ true
unfolding passes
passes-at ok {bound = zero} lt run = absurd (omega arith)
passes-at ok {bound = suc bound} {i = i} lt run =
    ground (arith, passes-at ok {bound = bound} {i = i})
