-- ===== src/Prelude/Results.antt =====
-- Go's `(T, error)` pairs and panics: a value, or what stopped the call.
use mathlib.Core.Path.{◌≡◌, refl}
use mathlib.Core.Bool.{Bool, true, false}
use mathlib.Core.Option.{Option, none, some}

pub data Result {ℓ} (E : Type 0) (A : Type ℓ) : Type ℓ where
  ok : A → Result E A
  err : E → Result E A

infixl 5 ◌>>=◌ ◌>>◌
abbrev pub ◌>>=◌ {ℓ κ} :
    {E : Type 0} {A : Type ℓ} {B : Type κ} → Result E A → (A → Result E B) → Result E B
ok a >>= f = f a
err e >>= f = err e

abbrev pub ◌>>◌ {ℓ} : {E : Type 0} {B : Type ℓ} → Result E (Unit {0}) → Result E B → Result E B
m >> k = m >>= λ _. k

-- `if b { return e }`
abbrev pub fail_if : {E : Type 0} → Bool → E → Result E (Unit {0})
fail_if true e = err e
fail_if false e = ok tt

-- The value of an `Option`, or an error.
abbrev pub or_err {ℓ} : {E : Type 0} {A : Type ℓ} → Option A → E → Result E A
or_err none e = err e
or_err (some a) e = ok a

pub ok-injective {ℓ} : {E : Type 0} {A : Type ℓ} {a b : A} → Path (Result E A) (ok a) (ok b) → a ≡ b
ok-injective e = cc

-- A chain that gives a value has a value at each step.
pub bind_ok {ℓ κ} :
    {E : Type 0} {A : Type ℓ} {B : Type κ} (m : Result E A) (f : A → Result E B) {b : B}
    → m >>= f ≡ ok b
    → (a : A) × (m ≡ ok a) × (f a ≡ ok b)
bind_ok (ok a) f e = (a, refl, e)
bind_ok (err x) f e = cc

-- A chain behind a test that gives a value: the test is false, and the rest gives the value.
pub guard_ok {ℓ} :
    {E : Type 0} {B : Type ℓ} (b : Bool) (x : E) (k : Result E B) {v : B}
    → fail_if b x >> k ≡ ok v
    → (b ≡ false) × (k ≡ ok v)
guard_ok true x k e = cc
guard_ok false x k e = (refl, e)

pub fail_if_ok : {E : Type 0} (b : Bool) (x : E) {t : Unit {0}} → fail_if b x ≡ ok t → b ≡ false
fail_if_ok true x e = cc
fail_if_ok false x e = refl

pub some-injective {ℓ} : {A : Type ℓ} {a b : A} → Path (Option A) (some a) (some b) → a ≡ b
some-injective e = cc
