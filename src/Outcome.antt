-- ===== src/Outcome.antt =====
-- The results of the sources' operations: `{ ok: true, … }`, `{ ok: false, error: { code } }`, and
-- an exception or a rejected promise. Messages of errors are left out.
use gptqueue.Prelude.{Bool, true, false, Option, none, some, ◌≡◌, refl, ◌⊎◌, inl, inr}

pub data Outcome {ℓ} (E : Type ℓ) (A : Type ℓ) : Type ℓ where
  ok : A → Outcome E A
  err : E → Outcome E A
  throws : Outcome E A

infixl 5 ◌>>=◌ ◌>>◌
abbrev pub ◌>>=◌ {ℓ} : {E A B : Type ℓ} → Outcome E A → (A → Outcome E B) → Outcome E B
ok a >>= f = f a
err e >>= f = err e
throws >>= f = throws

abbrev pub ◌>>◌ {ℓ} : {E A B : Type ℓ} → Outcome E A → Outcome E B → Outcome E B
m >> k = m >>= λ _. k

module _ {E : Type 0} where
  -- `if (!b) return fail(e)`
  abbrev pub guard : Bool → E → Outcome E (Unit {0})
  guard true e = ok tt
  guard false e = err e

  abbrev pub or_err : {A : Type 0} → Option A → E → Outcome E A
  or_err none e = err e
  or_err (some a) e = ok a

  abbrev pub or_throw : {A : Type 0} → Option A → Outcome E A
  or_throw none = throws
  or_throw (some a) = ok a

  pub guard-eq-ok :
      {A : Type 0} (b : Bool) (e : E) (k : Outcome E A) {a : A}
      → (guard b e >> k) ≡ ok a
      → (b ≡ true) × (k ≡ ok a)
  guard-eq-ok true e k h = (refl, h)
  guard-eq-ok false e k h = cc

  pub or_err-eq-ok :
      {A B : Type 0} (o : Option A) (e : E) (f : A → Outcome E B) {b : B}
      → (or_err o e >>= f) ≡ ok b
      → (a : A) × (o ≡ some a) × (f a ≡ ok b)
  or_err-eq-ok (some a) e f h = (a, refl, h)
  or_err-eq-ok none e f h = cc

  pub or_throw-eq-ok :
      {A B : Type 0} (o : Option A) (f : A → Outcome E B) {b : B}
      → (or_throw o >>= f) ≡ ok b
      → (a : A) × (o ≡ some a) × (f a ≡ ok b)
  or_throw-eq-ok (some a) f h = (a, refl, h)
  or_throw-eq-ok none f h = cc

-- To split on a computed result: it is a value, or nothing made from it is one.
pub Outcome-cases :
    {E A B : Type 0} (m : Outcome E A)
    → ((a : A) × (m ≡ ok a)) ⊎ ((b : B) (f : A → Outcome E B) → (m >>= f) ≡ ok b → ⊥)
Outcome-cases (ok a) = inl (a, refl)
Outcome-cases (err e) = inr (λ b f h. cc)
Outcome-cases throws = inr (λ b f h. cc)
