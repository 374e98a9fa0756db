-- ===== src/Base/Results.antt =====
-- Go's (value, error) pairs, and methods that change a state and may fail.
use mathlib.Core.Path.{◌≡◌, refl}
use mathlib.Core.Logic.{◌⊎◌, inl, inr}

pub data Result {ℓ} (E A : Type ℓ) : Type ℓ where
  ok : A → Result E A
  err : E → Result E A

module _ {ℓ} {E A B : Type ℓ} where
  infixl 5 ◌>>=◌
  abbrev pub ◌>>=◌ : Result E A → (A → Result E B) → Result E B
  ok a >>= f = f a
  err e >>= f = err e

  infixl 5 ◌>>◌
  abbrev pub ◌>>◌ : Result E A → Result E B → Result E B
  m >> k = m >>= λ _. k

  -- A chain that succeeds has a first step that succeeds.
  pub >>=-eq-ok :
      (first : Result E A) (rest : A → Result E B) {y : B}
      → (first >>= rest) ≡ ok y
      → (x : A) × (first ≡ ok x) × (rest x ≡ ok y)
  >>=-eq-ok (err reason) rest eq = cc
  >>=-eq-ok (ok x) rest eq = (x, refl, eq)

abbrev pub guard {ℓ} : {E : Type ℓ} → mathlib.Core.Bool.Bool → E → Result E (Unit {ℓ})
guard mathlib.Core.Bool.true e = ok tt
guard mathlib.Core.Bool.false e = err e

module _ {ℓ} {E A : Type ℓ} where
  pub ok-injective : {a b : A} → ◌≡◌ {A = Result E A} (ok a) (ok b) → a ≡ b
  ok-injective h = cc

  pub Result-cases : (r : Result E A) → ((a : A) × (r ≡ ok a)) ⊎ ((e : E) × (r ≡ err e))
  Result-cases (ok a) = inl (a, refl)
  Result-cases (err e) = inr (e, refl)
