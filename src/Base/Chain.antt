-- ===== src/Base/Chain.antt =====
-- Results that may be missing, one after the other, for do blocks.
use mathlib.Core.Option.{Option, none, some}

infixl 20 ◌>>=◌
abbrev pub ◌>>=◌ {ℓ k} : {A : Type ℓ} {B : Type k} → Option A → (A → Option B) → Option B
none >>= f = none
some a >>= f = f a
