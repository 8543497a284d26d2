-- ===== src/Errors.antt =====
-- The exceptions that the program throws: common/exceptions/domain.error.ts,
-- modules/classes/domain/errors/classes.errors.ts and value-objects/phone.error.ts, Nest's own
-- HTTP exceptions, and the errors of the database client.
use taksees.Prelude.{◌≡◌, refl, ◌⊎◌, inl, inr, Text, codes, ◌++◌}

-- The subclasses of `DomainError`, with what their constructors are given.
pub data DomainError : Type 0 where
  invalid_phone : (input : Text) → DomainError
  class_not_found : (class_id : Text) → DomainError
  member_not_found : (member_id : Text) → DomainError
  servant_assignment_exists : (servant_id class_id : Text) → DomainError
  leader_must_be_a_user : (leader_id : Text) → DomainError
  servant_must_be_a_user : (servant_id : Text) → DomainError

-- The message that each constructor hands to `super`.
unfoldable pub message : DomainError → Text
message (invalid_phone input) =
    codes "Phone number \"" ++ input ++ codes "\" is not a valid E.164 number."
message (class_not_found id) = codes "Class " ++ id ++ codes " not found."
message (member_not_found id) = codes "Member " ++ id ++ codes " not found."
message (servant_assignment_exists s c) =
    codes "Servant " ++ s ++ codes " is already assigned to class " ++ c ++ codes "."
message (leader_must_be_a_user id) = codes "Leader user " ++ id ++ codes " does not exist."
message (servant_must_be_a_user id) = codes "Servant user " ++ id ++ codes " does not exist."

-- `readonly code`
unfoldable pub error_code : DomainError → Text
error_code (invalid_phone _) = codes "INVALID_PHONE"
error_code (class_not_found _) = codes "CLASS_NOT_FOUND"
error_code (member_not_found _) = codes "MEMBER_NOT_FOUND"
error_code (servant_assignment_exists _ _) = codes "SERVANT_ALREADY_ASSIGNED"
error_code (leader_must_be_a_user _) = codes "LEADER_USER_NOT_FOUND"
error_code (servant_must_be_a_user _) = codes "SERVANT_USER_NOT_FOUND"

-- The HTTP exceptions of Nest that the code throws, by their status.
pub data HttpKind : Type 0 where
  bad_request unauthorized forbidden request_timeout : HttpKind

-- What `throw` can carry.
pub data Exception : Type 0 where
  domain : DomainError → Exception
  http : HttpKind → Text → Exception
  -- a `PrismaClientKnownRequestError`, by its code
  prisma_known : (code : Text) → Exception
  -- a plain `Error`, by its message
  error : Text → Exception

-- How a call ends.
pub data Result {ℓ} (A : Type ℓ) : Type ℓ where
  throws : Exception → Result A
  ok : A → Result A

module _ {ℓ} {A : Type ℓ} where
  pub Result-cases : (r : Result A) → ((a : A) × (r ≡ ok a)) ⊎ ((e : Exception) × (r ≡ throws e))
  Result-cases (throws e) = inr (e, refl)
  Result-cases (ok a) = inl (a, refl)

  pub result-injective : {a b : A} → ok a ≡ ok b → a ≡ b
  result-injective e = cc

module _ {ℓ κ} {A : Type ℓ} {B : Type κ} where
  infixl 5 ◌>>=◌
  -- What follows a call, unless it throws.
  abbrev pub ◌>>=◌ : Result A → (A → Result B) → Result B
  throws e >>= next = throws e
  ok a >>= next = next a

  -- If both ran to their end, so did the first.
  pub >>=-eq-ok :
      (first : Result A) (next : A → Result B) {b : B}
      → (first >>= next) ≡ ok b
      → (a : A) × (first ≡ ok a) × (next a ≡ ok b)
  >>=-eq-ok (throws e) next h = cc
  >>=-eq-ok (ok a) next h = (a, refl, h)
