-- ===== src/Prelude/Action.antt =====
-- Methods that change an object and may raise. What was written before a raise stays written, so the
-- state comes back beside the exception too.
use ops_sentry.Prelude.Results.{Result, ok, err}

abbrev pub Action {ℓ κ μ} : Type ℓ → Type κ → Type μ → Type (ℓ ⊔ κ ⊔ μ)
Action S E A = S → Result E A × S

module _ {ℓ κ μ} {S : Type ℓ} {E : Type κ} {A : Type μ} where
  abbrev pub return : A → Action S E A
  return a s = (ok a, s)

  abbrev pub raise : E → Action S E A
  raise e s = (err e, s)

  -- a call that changes nothing
  abbrev pub read : (S → Result E A) → Action S E A
  read f s = (f s, s)

module _ {ℓ κ μ ν} {S : Type ℓ} {E : Type κ} {A : Type μ} {B : Type ν} where
  abbrev go_on : Result E A → S → (A → Action S E B) → Result E B × S
  go_on (ok a) s f = f a s
  go_on (err e) s f = (err e, s)

  infixl 5 ◌>>=◌
  abbrev pub ◌>>=◌ : Action S E A → (A → Action S E B) → Action S E B
  ◌>>=◌ m f s = go_on (m s).0 (m s).1 f

module _ {ℓ κ ν} {S : Type ℓ} {E : Type κ} {B : Type ν} where
  infixl 5 ◌>>◌
  abbrev pub ◌>>◌ : Action S E (Unit {0}) → Action S E B → Action S E B
  m >> k = m >>= λ _. k
