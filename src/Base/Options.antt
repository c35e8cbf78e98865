-- ===== src/Base/Options.antt =====
-- Reading in steps, each of which may find nothing.
use mathlib.Core.Option.{Option, none, some}

infixl 5 ◌then◌
abbrev pub ◌then◌ {ℓ κ} : {A : Type ℓ} {B : Type κ} → Option A → (A → Option B) → Option B
none then k = none
(some a) then k = k a
