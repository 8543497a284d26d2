-- ===== src/Filters/Prisma.antt =====
-- common/filters/prisma-exception.filter.ts
use taksees.Prelude.{
  ℕ, List, [], ◌∷◌, ◌++◌, Option, none, some, Text, codes, join, ◌===◌, if◌then◌else◌,
}
use taksees.Filters.{text, number, Object, slug}

-- What `@Catch` hands to the filter: a known request error with its code and the columns of
-- `meta.target`, or a validation error.
pub data PrismaError : Type 0 where
  known_request : (code : Text) → (target : Option (List Text)) → PrismaError
  validation : PrismaError

pub record Report : Type 0 where
  pub status : ℕ
  pub title : Text
  pub detail : Text
  pub code : Text

-- `(exception.meta?.target) ?? ['field']`
abbrev target_or_field : Option (List Text) → List Text
target_or_field none = codes "field" ∷ []
target_or_field (some columns) = columns

-- The values of the four variables that the filter starts from.
abbrev pub database_error : Report
database_error = record {
  status = 500;
  title = codes "Database Error";
  detail = codes "A database error occurred.";
  code = codes "DATABASE_ERROR";
}

abbrev unique_violation : Option (List Text) → Report
unique_violation target = record {
  status = 409;
  title = codes "Conflict";
  detail =
      codes "A record with this "
      ++ (join (codes ", ") (target_or_field target) ++ codes " already exists.");
  code = codes "UNIQUE_VIOLATION";
}

abbrev record_not_found : Report
record_not_found = record {
  status = 404;
  title = codes "Not Found";
  detail = codes "The requested record was not found.";
  code = codes "RECORD_NOT_FOUND";
}

abbrev foreign_key_violation : Report
foreign_key_violation = record {
  status = 400;
  title = codes "Bad Request";
  detail = codes "A referenced record does not exist.";
  code = codes "FOREIGN_KEY_VIOLATION";
}

-- The branches on the exception.
unfoldable pub report_of : PrismaError → Report
report_of validation = record {
  status = 400;
  title = codes "Validation Error";
  detail = codes "Invalid input passed to the database client.";
  code = codes "PRISMA_VALIDATION";
}
report_of (known_request code target) =
    if code === codes "P2002"
    then unique_violation target
    else if code === codes "P2025"
    then record_not_found
    else if code === codes "P2003"
    then foreign_key_violation
    else database_error

-- The body of the response.
unfoldable pub body_of : Report → (uri trace_id : Text) → Object
body_of r uri trace_id =
    (codes "type", text (codes "https://taksees.app/errors/" ++ slug r.code))
    ∷ (codes "title", text r.title)
    ∷ (codes "status", number r.status)
    ∷ (codes "detail", text r.detail)
    ∷ (codes "code", text r.code)
    ∷ (codes "instance", text uri)
    ∷ (codes "traceId", text trace_id)
    ∷ []
