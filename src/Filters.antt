-- ===== src/Filters.antt =====
-- common/filters/ and `toProblemDetails` of common/exceptions/domain.error.ts: the problem details
-- that an exception becomes. An object is the list of its fields, in the order of their keys.
pub mod Http
pub mod Prisma
pub mod Laws
pub mod Dispatch
mod Tests
use taksees.Prelude.{
  ℕ, Bool, true, false, List, [], ◌∷◌, ◌++◌, map, Option, none, some, Text, codes, to_lower, ◌==◌,
  ◌===◌, is_empty, if◌then◌else◌,
}
use taksees.Errors.{
  DomainError, message, error_code, invalid_phone, class_not_found, member_not_found,
  servant_assignment_exists, leader_must_be_a_user, servant_must_be_a_user,
}

-- A value of a JSON object; one that the code only passes on is given by its JSON text.
pub data Value : Type 0 where
  null : Value
  text : Text → Value
  number : ℕ → Value
  texts : List Text → Value
  object : List (Text × Text) → Value
  json : Text → Value

abbrev pub Object : Type 0
Object = List (Text × Value)

-- `o[key] = value`
abbrev pub set : Text → Value → Object → Object
set key v [] = (key, v) ∷ []
set key v ((k, w) ∷ o) = let rest = set key v o in if k === key then (k, v) ∷ o else (k, w) ∷ rest

-- `o[key]`
abbrev pub get : Text → Object → Option Value
get key [] = none
get key ((k, v) ∷ o) = if k === key then some v else get key o

-- `{ ...o, ...extras }`
abbrev pub spread : Object → Object → Object
spread o [] = o
spread o ((k, v) ∷ extras) = spread (set k v o) extras

-- `code.toLowerCase().replace(/_/g, '-')`
abbrev dash : ℕ → ℕ
dash c = if c == b'_' then b'-' else to_lower c

unfoldable pub slug : Text → Text
slug = map dash

-- `this.constructor.name.replace(/Error$/, '')`
unfoldable pub title : DomainError → Text
title (invalid_phone _) = codes "InvalidPhone"
title (class_not_found _) = codes "ClassNotFound"
title (member_not_found _) = codes "MemberNotFound"
title (servant_assignment_exists _ _) = codes "ServantAssignmentExists"
title (leader_must_be_a_user _) = codes "LeaderMustBeAUser"
title (servant_must_be_a_user _) = codes "ServantMustBeAUser"

-- `context`
unfoldable pub context : DomainError → List (Text × Text)
context (invalid_phone input) = (codes "input", input) ∷ []
context (class_not_found id) = (codes "classId", id) ∷ []
context (member_not_found id) = (codes "memberId", id) ∷ []
context (servant_assignment_exists s c) = (codes "servantId", s) ∷ (codes "classId", c) ∷ []
context (leader_must_be_a_user id) = (codes "leaderId", id) ∷ []
context (servant_must_be_a_user id) = (codes "servantId", id) ∷ []

-- `getStatus()`: every subclass passes `HttpStatus.UNPROCESSABLE_ENTITY` to `super`.
unfoldable pub domain_status : DomainError → ℕ
domain_status e = 422

-- `...(s ? { key: s } : {})`
abbrev pub optional_field : Text → Text → Object
optional_field key s = if is_empty s then [] else (key, text s) ∷ []

-- `DomainError.toProblemDetails`
unfoldable pub to_problem_details : DomainError → Text → Text → Object
to_problem_details e instance trace_id =
    (codes "type", text (codes "https://taksees.app/errors/" ++ slug (error_code e)))
    ∷ (codes "title", text (title e))
    ∷ (codes "status", number (domain_status e))
    ∷ (codes "detail", text (message e))
    ∷ (codes "code", text (error_code e))
    ∷ (codes "context", object (context e))
    ∷ (optional_field (codes "instance") instance ++ optional_field (codes "traceId") trace_id)
