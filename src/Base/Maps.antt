-- ===== src/Base/Maps.antt =====
-- Maps from numbers, as functions.
use Prim.Native.Nat.{ℕ}
use mathlib.Core.Path.{◌≡◌}
use mathlib.Core.Bool.{false}
use native.Mathlib.Omega.{arith}
use homekit_bridge.Base.Tests.{◌==◌, if◌then◌else◌}

-- The map with `x` at `i`.
abbrev pub put : {A : Type 0} → (ℕ → A) → ℕ → A → ℕ → A
put f i x j = if i == j then x else f j

pub put_other :
    {A : Type 0} (f : ℕ → A) (i : ℕ) (x : A) (j : ℕ) → (i == j) ≡ false → put f i x j ≡ f j
put_other f i x j e = ground (arith, e)

pub put_same : {A : Type 0} (f : ℕ → A) (i : ℕ) (x : A) → put f i x i ≡ x
put_same f i x = ground arith
