-- ===== src/Prelude/Results.antt =====
-- Code that may throw: a result or an error.

use mathlib.Core.Path.{◌≡◌, refl}
use mathlib.Core.Bool.{Bool, true, false}
use mathlib.Core.Option.{Option, none, some}

pub data Result {ℓ κ} (E : Type ℓ) (A : Type κ) : Type (ℓ ⊔ κ) where
  ok : A → Result E A
  err : E → Result E A

infixl 5 ◌>>=◌ ◌>>◌
abbrev pub ◌>>=◌ {ℓ κ ι} :
    {E : Type ℓ} {A : Type κ} {B : Type ι} → Result E A → (A → Result E B) → Result E B
ok a >>= f = f a
err e >>= f = err e

abbrev pub ◌>>◌ {ℓ ι} : {E : Type ℓ} {B : Type ι} → Result E (Unit {0}) → Result E B → Result E B
m >> k = m >>= λ _. k

-- `if (!test) throw e`.
abbrev pub require {ℓ} : {E : Type ℓ} → Bool → E → Result E (Unit {0})
require true e = ok tt
require false e = err e

abbrev pub or_throw {ℓ κ} : {E : Type ℓ} {A : Type κ} → Option A → E → Result E A
or_throw none e = err e
or_throw (some a) e = ok a

pub bind-ext {ℓ κ ι} :
    {E : Type ℓ} {A : Type κ} {B : Type ι} (m : Result E A) (f g : A → Result E B)
    → ((a : A) → f a ≡ g a)
    → m >>= f ≡ m >>= g
bind-ext (ok a) f g h = h a
bind-ext (err e) f g h = refl

pub bind_assoc {ℓ κ ι μ} :
    {E : Type ℓ} {A : Type κ} {B : Type ι} {C : Type μ} (m : Result E A) (f : A → Result E B)
    (g : B → Result E C)
    → m >>= f >>= g ≡ m >>= (λ a. f a >>= g)
bind_assoc (ok a) f g = refl
bind_assoc (err e) f g = refl

-- A step of a chain that succeeded, and what came after it.
pub require-passed :
    {E A : Type 0} (b : Bool) (e : E) (k : Result E A) (a : A)
    → (require b e >> k) ≡ ok a
    → (b ≡ true) × (k ≡ ok a)
require-passed true e k a h = (refl, h)
require-passed false e k a h = absurd (cc h)

pub bind-passed :
    {E A B : Type 0} (m : Result E A) (f : A → Result E B) (b : B)
    → (m >>= f) ≡ ok b
    → (a : A) × ((m ≡ ok a) × (f a ≡ ok b))
bind-passed (ok a) f b h = (a, (refl, h))
bind-passed (err e) f b h = absurd (cc h)

pub or_throw-passed :
    {E A B : Type 0} (o : Option A) (e : E) (f : A → Result E B) (b : B)
    → (or_throw o e >>= f) ≡ ok b
    → (a : A) × ((o ≡ some a) × (f a ≡ ok b))
or_throw-passed (some a) e f b h = (a, (refl, h))
or_throw-passed none e f b h = absurd (cc h)

pub require-true : {E : Type 0} (b : Bool) (e : E) → require b e ≡ ok tt → b ≡ true
require-true true e h = refl
require-true false e h = absurd (cc h)

pub ok_injective : {E A : Type 0} {a b : A} (m : Result E A) → m ≡ ok a → m ≡ ok b → a ≡ b
ok_injective m h k = cc (h, k)
