-- ===== src/Base/Exec.antt =====
-- Methods that change a state and may fail: what was written before an error stays written.
use mathlib.Core.Path.{◌≡◌, refl, ap}
use mathlib.Core.Logic.{◌⊎◌, inl, inr}
use space_db.Base.Results.{Result, ok, err}

abbrev pub Exec {ℓ} : Type ℓ → Type ℓ → Type ℓ → Type ℓ
Exec S E A = S → Result E A × S

module _ {ℓ} {S E A : Type ℓ} where
  abbrev pub pure : A → Exec S E A
  pure a s = (ok a, s)

  -- A call that reads the state.
  abbrev pub reads : (S → Result E A) → Exec S E A
  reads f s = (f s, s)

  abbrev pub lift : Result E A → Exec S E A
  lift r s = (r, s)

module _ {ℓ} {S E A B : Type ℓ} where
  abbrev pub continue : Result E A × S → (A → Exec S E B) → Result E B × S
  continue (ok a, s) f = f a s
  continue (err e, s) f = (err e, s)

  infixl 5 ◌>>=◌ ◌>>◌
  abbrev pub ◌>>=◌ : Exec S E A → (A → Exec S E B) → Exec S E B
  ◌>>=◌ m f s = continue (m s) f

  abbrev pub ◌>>◌ : Exec S E A → Exec S E B → Exec S E B
  ◌>>◌ m k s = continue (m s) (λ _. k)

  -- A chain that succeeds and starts with a step that only reads.
  pub reads-eq-ok :
      (first : Result E A) (s : S) (f : A → Exec S E B) {y : B} {s' : S}
      → continue (first, s) f ≡ (ok y, s')
      → (x : A) × (first ≡ ok x) × (f x s ≡ (ok y, s'))
  reads-eq-ok (ok x) s f eq = (x, refl, eq)
  reads-eq-ok (err reason) s f eq = cc (ap (λ p. p.0) eq)

  -- A chain that succeeds has a first call that succeeds, and is the rest from the state behind it.
  pub continue-eq-ok :
      (call : Result E A × S) (f : A → Exec S E B) {y : B}
      → (continue call f).0 ≡ ok y
      → (x : A) × (call.0 ≡ ok x) × (continue call f ≡ f x call.1)
  continue-eq-ok (ok x, s) f eq = (x, refl, refl)
  continue-eq-ok (err reason, s) f eq = cc

  -- A chain goes on from the state behind its first call, or stops there with its error.
  pub continue-cases :
      (call : Result E A × S) (f : A → Exec S E B)
      → ((x : A) × (continue call f ≡ f x call.1)) ⊎ ((e : E) × (continue call f ≡ (err e, call.1)))
  continue-cases (ok x, s) f = inl (x, refl)
  continue-cases (err reason, s) f = inr (reason, refl)
