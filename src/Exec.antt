-- ===== src/Exec.antt =====
-- The runtime's fallible code over `&mut` state: `fn f(&mut self) -> Result<A, E>` is a function
-- from the state to a result and the state that it leaves, also where it returns an error.
pub mod Keeps
use vejas.Base.{◌≡◌, refl, ap, ◌⊎◌, inl, inr}

pub data Result {ℓ} (E A : Type ℓ) : Type ℓ where
  ok : A → Result E A
  err : E → Result E A

-- A result without its value.
pub data Outcome {ℓ} (E : Type ℓ) : Type ℓ where
  returned : Outcome E
  failed : E → Outcome E

module _ {ℓ} {E A : Type ℓ} where
  abbrev pub outcome : Result E A → Outcome E
  outcome (ok a) = returned
  outcome (err e) = failed e

  -- `P` holds of the value, or of the error.
  abbrev pub OnOk {κ} : (A → Type κ) → Result E A → Type κ
  OnOk P (ok a) = P a
  OnOk P (err e) = Unit

  abbrev pub OnErr {κ} : (E → Type κ) → Result E A → Type κ
  OnErr P (ok a) = Unit
  OnErr P (err e) = P e

pub Result-cases {ℓ} :
    {E A : Type ℓ} (r : Result E A) → ((a : A) × (r ≡ ok a)) ⊎ ((e : E) × (r ≡ err e))
Result-cases (ok a) = inl (a, refl)
Result-cases (err e) = inr (e, refl)

-- `r.map_err(f)`
abbrev pub map_err {ℓ} : {E F A : Type ℓ} → (E → F) → Result E A → Result F A
map_err f (ok a) = ok a
map_err f (err e) = err (f e)

abbrev pub Exec {ℓ} : Type ℓ → Type ℓ → Type ℓ → Type ℓ
Exec E S A = S → Result E A × S

module _ {ℓ} {E S A : Type ℓ} where
  unfoldable pub pure : A → Exec E S A
  pure a s = (ok a, s)

  unfoldable pub raise : E → Exec E S A
  raise e s = (err e, s)

  -- `r?`
  unfoldable pub lift : Result E A → Exec E S A
  lift r s = (r, s)

  unfoldable pub gets : (S → A) → Exec E S A
  gets f s = (ok (f s), s)

module _ {ℓ} {E S : Type ℓ} where
  unfoldable pub modify : (S → S) → Exec E S (Unit {ℓ})
  modify f s = (ok tt, f s)

module _ {ℓ} {E S A B : Type ℓ} where
  abbrev pub continue : Result E A → (A → Exec E S B) → Exec E S B
  continue (ok a) f s = f a s
  continue (err e) f s = (err e, s)

  infixl 10 ◌>>=◌ ◌>>◌
  unfoldable pub ◌>>=◌ : Exec E S A → (A → Exec E S B) → Exec E S B
  unfolding pure raise lift gets modify
  ◌>>=◌ m f s = let (r, s') = m s in continue r f s'

  abbrev pub ◌>>◌ : Exec E S A → Exec E S B → Exec E S B
  m >> n = m >>= λ _. n

  pub bind_ok :
      (m : Exec E S A) (f : A → Exec E S B) (s t : S) (a : A)
      → m s ≡ (ok a, t)
      → (m >>= f) s ≡ f a t
  unfolding ◌>>=◌
  bind_ok m f s t a e = ap (λ p. continue p.0 f p.1) e
