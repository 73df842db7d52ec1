-- ===== src/Prelude/Outcome.antt =====
-- A result, or an error of the package's own type.
use mathlib.Core.Path.{◌≡◌, refl, ap}
use mathlib.Core.Bool.{Bool, true, false}
use gooru.Prelude.Tests.{if◌then◌else◌}

pub data Outcome {ℓ κ} (E : Type ℓ) (A : Type κ) : Type (ℓ ⊔ κ) where
  ok : A → Outcome E A
  err : E → Outcome E A

infixl 5 ◌>>=◌
abbrev pub ◌>>=◌ {ℓ κ μ} :
    {E : Type ℓ} {A : Type κ} {B : Type μ} → Outcome E A → (A → Outcome E B) → Outcome E B
ok a >>= f = f a
err e >>= f = err e

abbrev or_default {ℓ κ} : {E : Type ℓ} {A : Type κ} → A → Outcome E A → A
or_default d (ok a) = a
or_default d (err e) = d

pub ok-injective {ℓ κ} :
    {E : Type ℓ} {A : Type κ} (a b : A) → ◌≡◌ {A = Outcome E A} (ok a) (ok b) → a ≡ b
ok-injective a b h = ap (or_default a) h

-- A chain that succeeds is one whose first part does.
pub bind-inverse {ℓ κ μ} :
    {E : Type ℓ} {A : Type κ} {B : Type μ} (m : Outcome E A) (k : A → Outcome E B) (b : B)
    → (m >>= k) ≡ ok b
    → (a : A) × (m ≡ ok a) × (k a ≡ ok b)
bind-inverse (ok a) k b h = (a, refl, h)
bind-inverse (err e) k b h = cc

pub guard-inverse {ℓ κ} :
    {E : Type ℓ} {A : Type κ} (c : Bool) (e : E) (m : Outcome E A) (a : A)
    → (if c then err e else m) ≡ ok a
    → (c ≡ false) × (m ≡ ok a)
guard-inverse true e m a h = cc
guard-inverse false e m a h = (refl, h)
