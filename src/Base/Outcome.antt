-- ===== src/Base/Outcome.antt =====
-- The result of a call that can end the process: `HAPPrecondition` and `HAPAssert` abort it.
use mathlib.Core.Bool.{Bool, true, false}

pub data Outcome {ℓ} (A : Type ℓ) : Type ℓ where
  ok : A → Outcome A
  abort : Outcome A

infixl 5 ◌>>=◌ ◌>>◌
abbrev pub ◌>>=◌ {ℓ κ} : {A : Type ℓ} {B : Type κ} → Outcome A → (A → Outcome B) → Outcome B
ok a >>= f = f a
abort >>= f = abort

abbrev pub ◌>>◌ {ℓ} : {B : Type ℓ} → Outcome (Unit {0}) → Outcome B → Outcome B
m >> k = m >>= λ _. k

-- `HAPPrecondition(b)` and `HAPAssert(b)`.
abbrev pub require : Bool → Outcome (Unit {0})
require true = ok tt
require false = abort
