-- ===== src/Base/Outcomes.antt =====
-- Go's pair of a value and an error, where an error leaves no value that is used.
use mathlib.Core.Path.{◌≡◌, refl}
use mathlib.Core.Bool.{Bool, true, false}
use mathlib.Core.Option.{Option, none, some}

pub data Outcome {ℓ κ} (E : Type ℓ) (A : Type κ) : Type (ℓ ⊔ κ) where
  done : A → Outcome E A
  error : E → Outcome E A

infixl 5 ◌>>=◌
abbrev pub ◌>>=◌ {ℓ κ μ} :
    {E : Type ℓ} {A : Type κ} {B : Type μ} → Outcome E A → (A → Outcome E B) → Outcome E B
done a >>= f = f a
error e >>= f = error e

infixl 5 ◌>>◌
abbrev pub ◌>>◌ {ℓ κ} : {E : Type ℓ} {B : Type κ} → Outcome E (Unit {0}) → Outcome E B → Outcome E B
m >> k = m >>= λ _. k

-- An early return: the test must hold, or the error is returned.
abbrev pub require {ℓ} : {E : Type ℓ} → Bool → E → Outcome E (Unit {0})
require true e = done tt
require false e = error e

abbrev pub or_error {ℓ κ} : {E : Type ℓ} {A : Type κ} → Option A → E → Outcome E A
or_error none e = error e
or_error (some a) e = done a

pub bind-done {ℓ κ μ} :
    {E : Type ℓ} {A : Type κ} {B : Type μ} (m : Outcome E A) (f : A → Outcome E B) (b : B)
    → m >>= f ≡ done b
    → (a : A) × (m ≡ done a) × (f a ≡ done b)
bind-done (done a) f b h = (a, refl, h)
bind-done (error e) f b h = cc

pub require-done {ℓ κ} :
    {E : Type ℓ} {B : Type κ} (t : Bool) (e : E) (k : Outcome E B) (b : B)
    → require t e >> k ≡ done b
    → (t ≡ true) × (k ≡ done b)
require-done true e k b h = (refl, h)
require-done false e k b h = cc

pub or_error-done {ℓ κ} :
    {E : Type ℓ} {A : Type κ} (o : Option A) (e : E) (a : A) → or_error o e ≡ done a → o ≡ some a
or_error-done none e a h = cc
or_error-done (some b) e a h = cc

pub done_inj {ℓ κ} :
    {E : Type ℓ} {A : Type κ} (a b : A) (h : ◌≡◌ {A = Outcome E A} (done a) (done b)) → a ≡ b
done_inj a b h = cc
