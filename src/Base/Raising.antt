-- ===== src/Base/Raising.antt =====
-- What a call that may raise returns: a value, or the exception.
use mathlib.Core.Path.{◌≡◌, refl}
use mathlib.Core.Logic.{◌⊎◌, inl, inr}
use mathlib.Core.Bool.{Bool, true, false}

pub data Outcome {ℓ κ} (E : Type ℓ) (A : Type κ) : Type (ℓ ⊔ κ) where
  ok : A → Outcome E A
  raise : E → Outcome E A

infixl 5 ◌>>=◌ ◌>>◌
abbrev pub ◌>>=◌ {ℓ κ μ} :
    {E : Type ℓ} {A : Type κ} {B : Type μ} → Outcome E A → (A → Outcome E B) → Outcome E B
ok a >>= f = f a
raise e >>= f = raise e

abbrev pub ◌>>◌ {ℓ μ} : {E : Type ℓ} {B : Type μ} → Outcome E (Unit {0}) → Outcome E B → Outcome E B
m >> k = m >>= λ _. k

-- `if test: raise e`
abbrev pub raise_if {ℓ} : {E : Type ℓ} → Bool → E → Outcome E (Unit {0})
raise_if true e = raise e
raise_if false e = ok tt

pub >>=-eq-ok {ℓ κ μ} :
    {X : Type ℓ} {A : Type κ} {B : Type μ} {y : B} (m : Outcome X A) (k : A → Outcome X B)
    → (m >>= k) ≡ ok y
    → (x : A) × (m ≡ ok x) × (k x ≡ ok y)
>>=-eq-ok (raise _) k ran = cc
>>=-eq-ok (ok x) k ran = (x, refl, ran)

-- What ran before a normal end: the test failed, and the rest ended so.
pub guard-ok {ℓ μ} :
    {E : Type ℓ} {B : Type μ} (t : Bool) (e : E) (k : Outcome E B) {b : B}
    → (raise_if t e >> k) ≡ ok b
    → (t ≡ false) × (k ≡ ok b)
guard-ok true e k h = cc
guard-ok false e k h = (refl, h)

pub guard-pass {ℓ μ} :
    {E : Type ℓ} {B : Type μ} (t : Bool) (e : E) (k : Outcome E B)
    → t ≡ false
    → (raise_if t e >> k) ≡ k
guard-pass t e k h = rw h

pub ok-injective {ℓ κ} :
    {E : Type ℓ} {A : Type κ} {a b : A} → ◌≡◌ {A = Outcome E A} (ok a) (ok b) → a ≡ b
ok-injective h = cc

-- To split on what a call returns and keep the equation.
pub Outcome-cases {ℓ κ} :
    {E : Type ℓ} {A : Type κ} (r : Outcome E A) → ((a : A) × (r ≡ ok a)) ⊎ ((e : E) × (r ≡ raise e))
Outcome-cases (ok a) = inl (a, refl)
Outcome-cases (raise e) = inr (e, refl)
