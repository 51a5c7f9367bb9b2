-- ===== src/Prelude/Results.antt =====
-- Fallible calls as values: Go's `(A, error)` is a result that holds one of the two.
use mathlib.Core.Bool.{Bool, true, false}
use mathlib.Core.Path.{◌≡◌, refl}

pub data Result {ℓ κ} (E : Type ℓ) (A : Type κ) : Type (ℓ ⊔ κ) where
  ok : A → Result E A
  err : E → Result E A

-- `abbrev`, so that `ok a >>= f` computes wherever it stands.
infixl 5 ◌>>=◌ ◌>>◌
abbrev pub ◌>>=◌ {ℓ κ μ} :
    {E : Type ℓ} {A : Type κ} {B : Type μ} → Result E A → (A → Result E B) → Result E B
ok a >>= f = f a
err e >>= f = err e

abbrev pub ◌>>◌ {ℓ κ} : {E : Type ℓ} {B : Type κ} → Result E (Unit {0}) → Result E B → Result E B
m >> k = m >>= λ _. k

-- `if failed { return e }`
abbrev pub fail_if {ℓ} : {E : Type ℓ} → Bool → E → Result E (Unit {0})
fail_if true e = err e
fail_if false e = ok tt

-- What holds of the value of a call, if it gives one.
abbrev pub Succeeds {ℓ κ μ} : {E : Type ℓ} {A : Type κ} → (A → Type μ) → Result E A → Type μ
Succeeds P (ok a) = P a
Succeeds P (err e) = Unit

pub Succeeds-fail_if {ℓ κ μ} :
    {E : Type ℓ} {A : Type κ} (P : A → Type μ) (c : Bool) (e : E) (k : Result E A)
    → (c ≡ false → Succeeds P k)
    → Succeeds P (fail_if c e >> k)
Succeeds-fail_if P true e k h = tt
Succeeds-fail_if P false e k h = h refl

pub Succeeds-bind {ℓ κ ν μ} :
    {E : Type ℓ} {A : Type κ} {B : Type ν} (P : B → Type μ) (m : Result E A) (f : A → Result E B)
    → ((a : A) → m ≡ ok a → Succeeds P (f a))
    → Succeeds P (m >>= f)
Succeeds-bind P (ok a) f h = h a refl
Succeeds-bind P (err e) f h = tt
