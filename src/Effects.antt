-- ===== src/Effects.antt =====
-- Asynchronous code over a shared state: a call runs to its end or rejects, and what was written
-- before a rejection stays written.
pub mod Ends
use taksees.Prelude.{◌≡◌, refl, ◌⊎◌, inl, inr}
use taksees.Errors.{Result, ok, throws, Exception}

abbrev pub Action : Type 0 → Type 0 → Type 0
Action S A = S → Result A × S

-- `await` of a call that has run, and what follows.
abbrev pub then_do : {S A B : Type 0} → Result A × S → (A → Action S B) → Result B × S
then_do (ok a, s) f = f a s
then_do (throws e, s) f = (throws e, s)

module _ {S A B : Type 0} where
  infixl 5 ◌>>=◌ ◌>>◌
  abbrev pub ◌>>=◌ : Action S A → (A → Action S B) → Action S B
  ◌>>=◌ m f s = then_do (m s) f

  abbrev pub ◌>>◌ : Action S A → Action S B → Action S B
  m >> k = m >>= λ _. k

-- `try { … } catch (err) { … }`
abbrev pub or_catch : {S A : Type 0} → Result A × S → (Exception → Action S A) → Result A × S
or_catch (ok a, s) handler = (ok a, s)
or_catch (throws e, s) handler = handler e s

module _ {S A : Type 0} where
  abbrev pub pure : A → Action S A
  pure a s = (ok a, s)

  abbrev pub raise : Exception → Action S A
  raise e s = (throws e, s)

  abbrev pub lift : Result A → Action S A
  lift r s = (r, s)

  -- A read: it leaves the state as it is.
  abbrev pub reads : (S → Result A) → Action S A
  reads f s = (f s, s)

  pub outcome_cases :
      (o : Result A × S)
      → ((a : A) × (t : S) × (o ≡ (ok a, t))) ⊎ ((e : Exception) × (t : S) × (o ≡ (throws e, t)))
  outcome_cases (ok a, t) = inl (a, t, refl)
  outcome_cases (throws e, t) = inr (e, t, refl)

-- Inversion of a successful step.
pub then_do-ok :
    {S A B : Type 0} (o : Result A × S) (f : A → Action S B) {b : B} {t : S}
    → then_do o f ≡ (ok b, t)
    → (a : A) × (u : S) × (o ≡ (ok a, u)) × (f a u ≡ (ok b, t))
then_do-ok (ok a, u) f h = (a, u, refl, h)
then_do-ok (throws e, u) f h = cc
