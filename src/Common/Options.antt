-- ===== src/Common/Options.antt =====
-- Chains of fallible steps.
use mathlib.Core.Path.{◌≡◌, refl, ap}
use mathlib.Core.Bool.{Bool, true, false, ◌&&◌}
use mathlib.Core.Option.{Option, none, some}

infixl 5 ◌>>=◌ ◌>>◌
abbrev pub ◌>>=◌ {ℓ κ} : {A : Type ℓ} {B : Type κ} → Option A → (A → Option B) → Option B
none >>= f = none
some a >>= f = f a

abbrev pub ◌>>◌ {ℓ} : {B : Type ℓ} → Option (Unit {0}) → Option B → Option B
m >> k = m >>= λ _. k

-- A check that must hold.
abbrev pub require : Bool → Option (Unit {0})
require true = some _
require false = none

-- A chain of steps that gives a result passed each of them.
pub bind_then :
    {A B C : Type 0} (o : Option A) (f : A → Option B) (b : B)
    → (o >>= f) ≡ some b
    → ((a : A) → o ≡ some a → f a ≡ some b → C)
    → C
bind_then none f b h k = absurd (cc h)
bind_then (some a) f b h k = k a refl h

pub require_then :
    {B C : Type 0} (c : Bool) (o : Option B) (b : B)
    → (require c >> o) ≡ some b
    → (c ≡ true → o ≡ some b → C)
    → C
require_then true o b h k = k refl h
require_then false o b h k = absurd (cc h)

pub &&_true : (a b : Bool) → (a && b) ≡ true → (a ≡ true) × (b ≡ true)
&&_true true b h = (refl, h)
&&_true false b h = absurd (cc h)

pub some_injective : {A : Type 0} (a b : A) → some a ≡ some b → a ≡ b
some_injective a b h = ap (λ o. elim o [ none ↦ a | some x ↦ x ]) h
