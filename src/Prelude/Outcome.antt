-- ===== src/Prelude/Outcome.antt =====
-- The result of code that may raise, for any type of exceptions.
use mathlib.Core.Path.{◌≡◌, refl}
use mathlib.Core.Bool.{Bool, true, false}
use mathlib.Core.Option.{Option, none, some}
use mathlib.Core.Logic.{◌⊎◌, inl, inr}

pub data Outcome {ℓ κ} (E : Type ℓ) (A : Type κ) : Type (ℓ ⊔ κ) where
  ok : A → Outcome E A
  raised : E → Outcome E A

infixl 5 ◌>>=◌ ◌>>◌
abbrev pub ◌>>=◌ {ℓ κ ι} :
    {E : Type ℓ} {A : Type κ} {B : Type ι} → Outcome E A → (A → Outcome E B) → Outcome E B
ok a >>= f = f a
raised e >>= f = raised e

abbrev pub ◌>>◌ {ℓ κ ι} :
    {E : Type ℓ} {A : Type κ} {B : Type ι} → Outcome E A → Outcome E B → Outcome E B
m >> k = m >>= λ _. k

abbrev pub raise_if {ℓ} : {E : Type ℓ} → Bool → E → Outcome E (Unit {0})
raise_if true e = raised e
raise_if false e = ok tt

abbrev pub or_raise {ℓ κ} : {E : Type ℓ} {A : Type κ} → Option A → E → Outcome E A
or_raise none e = raised e
or_raise (some a) e = ok a

-- A chain that returned went through the value of its first part.
pub >>=-eq-ok {ℓ κ ι} :
    {E : Type ℓ} {A : Type κ} {B : Type ι} (first : Outcome E A) (rest : A → Outcome E B) {y : B}
    (run : (first >>= rest) ≡ ok y)
    → (x : A) × (first ≡ ok x) × (rest x ≡ ok y)
>>=-eq-ok (raised e) rest run = cc
>>=-eq-ok (ok x) rest run = (x, refl, run)

pub or_raise-eq-ok {ℓ κ} :
    {E : Type ℓ} {A : Type κ} (o : Option A) (e : E) {a : A} → or_raise o e ≡ ok a → o ≡ some a
or_raise-eq-ok none e h = absurd (cc)
or_raise-eq-ok (some x) e h = cc

pub ok-injective {ℓ κ} :
    {E : Type ℓ} {A : Type κ} {a b : A} → ◌≡◌ {A = Outcome E A} (ok a) (ok b) → a ≡ b
ok-injective h = cc

-- The same result, with the error seen as one of a larger type.
abbrev pub wrap_error {ℓ ι κ} :
    {E : Type ℓ} {E' : Type ι} {A : Type κ} → (E → E') → Outcome E A → Outcome E' A
wrap_error f (ok a) = ok a
wrap_error f (raised e) = raised (f e)

pub wrap_error-eq-ok {ℓ ι κ} :
    {E : Type ℓ} {E' : Type ι} {A : Type κ} (f : E → E') (o : Outcome E A) {a : A}
    → wrap_error f o ≡ ok a
    → o ≡ ok a
wrap_error-eq-ok f (ok x) h = cc
wrap_error-eq-ok f (raised e) h = absurd (cc)

pub Outcome-cases {ℓ κ} :
    {E : Type ℓ} {A : Type κ} (o : Outcome E A)
    → ((a : A) × (o ≡ ok a)) ⊎ ((e : E) × (o ≡ raised e))
Outcome-cases (ok a) = inl (a, refl)
Outcome-cases (raised e) = inr (e, refl)
