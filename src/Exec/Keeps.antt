-- ===== src/Exec/Keeps.antt =====
-- A relation between the state before an action, its outcome and the state after it: one rule for
-- each way to build an action.
use vejas.Base.{Bool, true, false, ◌≡◌, refl, if◌then◌else◌}
use vejas.Exec.{
  Result, ok, err, Outcome, returned, failed, outcome, OnErr, Exec, pure, raise, lift, gets, modify,
  continue, ◌>>=◌,
}

-- Reflexive where an action returns, or fails by an error that `Raised` admits, and transitive
-- through an action that returned.
pub record Composes {ℓ} {E S : Type ℓ} (Raised : E → Type ℓ) (R : S → Outcome E → S → Type ℓ)
    : Type ℓ where
  pub same : (s : S) → R s returned s
  pub fails : (s : S) (e : E) → Raised e → R s (failed e) s
  pub chain : (s t u : S) (o : Outcome E) → R s returned t → R t o u → R s o u

-- `m` relates the state that it starts in to the one that it leaves.
pub record Keeps {ℓ} {E S A : Type ℓ} (R : S → Outcome E → S → Type ℓ) (m : Exec E S A)
    : Type ℓ where
  pub at : (s : S) → R s (outcome (m s).0) (m s).1

pub Keeps-modify {ℓ} :
    {E S : Type ℓ} {R : S → Outcome E → S → Type ℓ} (f : S → S)
    → ((s : S) → R s returned (f s))
    → Keeps R (modify f)
unfolding modify
Keeps-modify f h = record { at = h }

module _ {ℓ} {E S A : Type ℓ} {Raised : E → Type ℓ} {R : S → Outcome E → S → Type ℓ} where
  pub Keeps-pure : Composes Raised R → (a : A) → Keeps R (pure a)
  unfolding pure
  Keeps-pure c a = record { at = λ s. c.same s }

  pub Keeps-raise : Composes Raised R → (e : E) → Raised e → Keeps R (raise {A = A} e)
  unfolding raise
  Keeps-raise c e h = record { at = λ s. c.fails s e h }

  pub Keeps-lift : Composes Raised R → (r : Result E A) → OnErr Raised r → Keeps R (lift r)
  unfolding lift
  Keeps-lift c (ok a) h = record { at = λ s. c.same s }
  Keeps-lift c (err e) h = record { at = λ s. c.fails s e h }

  pub Keeps-gets : Composes Raised R → (f : S → A) → Keeps R (gets f)
  unfolding gets
  Keeps-gets c f = record { at = λ s. c.same s }

module _ {ℓ} {E S A : Type ℓ} {R : S → Outcome E → S → Type ℓ} where
  pub Keeps-if :
      (b : Bool) (m n : Exec E S A) → Keeps R m → Keeps R n → Keeps R (if b then m else n)
  Keeps-if true m n km kn = km
  Keeps-if false m n km kn = kn

module _ {ℓ} {E S A B : Type ℓ} {Raised : E → Type ℓ} {R : S → Outcome E → S → Type ℓ} where
  bind_at :
      Composes Raised R
      → (f : A → Exec E S B) → ((a : A) → Keeps R (f a))
      → (r : Result E A) (s t : S) → R s (outcome r) t
      → R s (outcome (continue r f t).0) (continue r f t).1
  bind_at c f kf (ok a) s t h = c.chain s t (f a t).1 (outcome (f a t).0) h ((kf a).at t)
  bind_at c f kf (err e) s t h = h

  pub Keeps-bind :
      Composes Raised R
      → (m : Exec E S A) (f : A → Exec E S B) → Keeps R m
      → ((a : A) → Keeps R (f a))
      → Keeps R (m >>= f)
  unfolding ◌>>=◌
  Keeps-bind c m f km kf = record { at = λ s. bind_at c f kf (m s).0 s (m s).1 (km.at s) }

  -- The rest of the block may use that `r` is a value.
  pub Keeps-bind-lift :
      Composes Raised R
      → (r : Result E A) (f : A → Exec E S B) → OnErr Raised r
      → ((a : A) → r ≡ ok a → Keeps R (f a))
      → Keeps R (lift r >>= f)
  unfolding ◌>>=◌
  Keeps-bind-lift c (ok a) f h kf = kf a refl
  Keeps-bind-lift c (err e) f h kf = record { at = λ s. c.fails s e h }

pub ruleset keeps_rules =
    (Keeps-pure, Keeps-raise, Keeps-lift, Keeps-gets, Keeps-modify, Keeps-if, Keeps-bind)
