-- ===== src/Prelude/Paths.antt =====
-- Transport in a family of two arguments.
use mathlib.Core.Path.{◌≡◌, subst}

pub subst2 {ℓ κ υ} :
    {A : Type ℓ} {B : Type κ} (P : A → B → Type υ) {a a' : A} {b b' : B}
    → a ≡ a'
    → b ≡ b'
    → P a b
    → P a' b'
subst2 P {a} {a'} {b} {b'} e f p = subst (λ y. P a' y) f (subst (λ x. P x b) e p)
