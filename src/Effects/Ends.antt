-- ===== src/Effects/Ends.antt =====
-- How a call ends, as a statement that composes along asynchronous code.
use taksees.Prelude.{◌≡◌, refl, ◌⊎◌, inl, inr}
use taksees.Errors.{ok, throws, Exception}
use taksees.Effects.{Action, ◌>>=◌, pure, outcome_cases}

-- The call returns a value that `P` holds of, or throws an exception and leaves a state that `E`
-- holds of.
abbrev pub Ends : {S A : Type 0} → (A → Type 0) → (Exception → S → Type 0) → Action S A → Type 0
Ends {S} {A} P E call =
    (s : S)
    → ((a : A) × (t : S) × (call s ≡ (ok a, t)) × P a)
      ⊎ ((e : Exception) × (t : S) × (call s ≡ (throws e, t)) × E e t)

abbrev pub Anything : {A : Type 0} → A → Type 0
Anything a = Unit {0}

module _ {S A B : Type 0} {P : A → Type 0} {Q : B → Type 0} {E : Exception → S → Type 0} where
  pub bind-Ends :
      (call : Action S A) (next : A → Action S B)
      → Ends P E call
      → ((a : A) → P a → Ends Q E (next a))
      → Ends Q E (call >>= next)
  bind-Ends call next h k s = elim (h s) [
    | inr (e, t, thrown, cause) ↦ inr (e, t, rw thrown refl, cause)
    | inl (a, t, returned, p) ↦ elim (k a p t) [
      | inr (e, u, thrown, cause) ↦ inr (e, u, rw returned thrown, cause)
      | inl (b, u, f, q) ↦ inl (b, u, rw returned f, q)
    ]
  ]

pub pure-Ends :
    {S A : Type 0} {P : A → Type 0} {E : Exception → S → Type 0} (a : A)
    → P a
    → Ends {S = S} P E (pure a)
pure-Ends a p s = inl (a, s, refl, p)

-- A call, whose exceptions `E` holds of.
pub call-Ends :
    {S A : Type 0} {E : Exception → S → Type 0} (call : Action S A)
    → ((s t : S) (e : Exception) → call s ≡ (throws e, t) → E e t)
    → Ends Anything E call
call-Ends call cause s = elim (outcome_cases (call s)) [
  | inl (a, t, e) ↦ inl (a, t, e, tt)
  | inr (x, t, e) ↦ inr (x, t, e, cause s t x e)
]
