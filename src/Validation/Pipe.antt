-- ===== src/Validation/Pipe.antt =====
-- common/pipes/zod-validation.pipe.ts. `safeParse` of the schema and `flatten` of its error are
-- parameters; an object whose values are lists of messages is an association list.
use taksees.Prelude.{
  List, [], ◌∷◌, ◌++◌, Option, none, some, Text, codes, ◌===◌, if◌then◌else◌, is_empty,
}
use taksees.Errors.{Result, ok, throws, http, bad_request}
use taksees.Validation.{Json, Schema}

-- `ZodIssue`, its path as texts
pub record Issue : Type 0 where
  pub path : List Text
  pub message : Text

-- What `safeParse` returns.
pub data Parsed : Type 0 where
  success : Json → Parsed
  failure : List Issue → Parsed

-- `Record<string, string[]>`
abbrev pub Messages : Type 0
Messages = List (Text × List Text)

-- `messages[field] ?? []`
abbrev pub messages_of : Text → Messages → List Text
messages_of field [] = []
messages_of field ((f, list) ∷ more) = if f === field then list else messages_of field more

-- `messages[field] = list`
abbrev pub set_messages : Text → List Text → Messages → Messages
set_messages field list [] = (field, list) ∷ []
set_messages field list ((f, old) ∷ more) =
    let rest = set_messages field list more in
    if f === field then (f, list) ∷ more else (f, old) ∷ rest

-- The loop of `formatErrors` over `Object.entries(flat.fieldErrors)`.
unfoldable pub copy_fields : Messages → Messages → Messages
copy_fields [] out = out
copy_fields ((field, list) ∷ more) out =
    copy_fields more (if is_empty list then out else set_messages field list out)

abbrev pub root_key : Text
root_key = codes "_root"

-- The loop over `error.issues`.
unfoldable pub add_roots : List Issue → Messages → Messages
add_roots [] out = out
add_roots (issue ∷ issues) out = add_roots issues (
    if is_empty issue.path
    then set_messages root_key (messages_of root_key out ++ issue.message ∷ []) out
    else out)

-- `formatErrors(error)`
unfoldable pub format_errors : (List Issue → Messages) → List Issue → Messages
format_errors flatten issues = add_roots issues (copy_fields (flatten issues) [])

-- How `transform` ends: the `BadRequestException` carries a message and the errors.
pub data Outcome : Type 0 where
  passed : Json → Outcome
  refused : (message : Text) → (errors : Messages) → Outcome

module _ (safe_parse : Schema → Json → Parsed) (flatten : List Issue → Messages) where
  abbrev pub of_parsed : Parsed → Outcome
  of_parsed (success value) = passed value
  of_parsed (failure issues) = refused (codes "Validation failed") (format_errors flatten issues)

  -- `transform(value)`
  unfoldable pub transform : Schema → Json → Outcome
  transform schema value = of_parsed (safe_parse schema value)

-- The argument of a handler, or the exception that its pipe throws, where `read` takes the parsed
-- value apart.
abbrev pub read_or : {A : Type 0} → Option A → Result A
read_or (some a) = ok a
read_or none = throws (http bad_request [])

abbrev pub argument_of : {A : Type 0} → (Json → Option A) → Outcome → Result A
argument_of read (passed value) = read_or (read value)
argument_of read (refused message errors) = throws (http bad_request message)
