-- ===== src/Filters/Http.antt =====
-- common/filters/http-exception.filter.ts. Nest's table of the names of the status codes is a
-- parameter, and a new request id is an argument.
use taksees.Prelude.{
  ℕ, Bool, [], ◌∷◌, ◌++◌, Option, none, some, Text, codes, join, ◌||◌, ◌===◌, is_empty,
  if◌then◌else◌,
}
use taksees.Errors.{DomainError}
use taksees.Filters.{Value, null, text, number, texts, Object, get, spread, to_problem_details}

-- `getResponse()` of an HTTP exception
pub data Response : Type 0 where
  plain : Text → Response
  fields : Object → Response

-- What the filter tells apart.
pub data Caught : Type 0 where
  domain_error : DomainError → Caught
  http_exception : (status : ℕ) → (message : Text) → Response → Caught
  unexpected : Caught

-- `body`
abbrev body_of : Response → Object
body_of (plain s) = []
body_of (fields o) = o

-- `(body.message as …) ?? exception.message`
unfoldable pub message_of : Option Value → Text → Value
message_of none message = text message
message_of (some null) message = text message
message_of (some v) message = v

-- `Array.isArray(message) ? message.join('; ') : message`
unfoldable pub detail_of : Value → Value
detail_of (texts ss) = text (join (codes "; ") ss)
detail_of v = v

abbrev pub is_dropped : Text → Bool
is_dropped k = k === codes "message" || (k === codes "statusCode" || k === codes "error")

-- The loop over the entries of `body`.
unfoldable pub extras_of : Object → Object
extras_of [] = []
extras_of ((k, v) ∷ o) = let rest = extras_of o in if is_dropped k then rest else (k, v) ∷ rest

-- `HttpStatus[status] ?? 'Error'`
abbrev name_or_error : Option Text → Text
name_or_error none = codes "Error"
name_or_error (some s) = s

-- The fields of an HTTP exception's details that do not come from the body's extras.
unfoldable pub base_of : (ℕ → Option Text) → (digits : Text) → ℕ → Value → Text → Text → Object
base_of status_name digits status detail uri trace_id =
    (codes "type", text (codes "https://taksees.app/errors/http-" ++ digits))
    ∷ (codes "title", text (name_or_error (status_name status)))
    ∷ (codes "status", number status)
    ∷ (codes "detail", detail)
    ∷ (codes "instance", text uri)
    ∷ (codes "traceId", text trace_id)
    ∷ []

module _ (status_name : ℕ → Option Text) (digits : ℕ → Text) where
  -- `toProblemDetails`; `digits` writes a number in decimal
  unfoldable pub problem_of : Caught → (uri trace_id : Text) → Object
  problem_of (domain_error e) uri trace_id = to_problem_details e uri trace_id
  problem_of (http_exception status message response) uri trace_id =
      spread
        (base_of status_name (digits status) status
          (detail_of (message_of (get (codes "message") (body_of response)) message)) uri trace_id)
        (extras_of (body_of response))
  problem_of unexpected uri trace_id =
      (codes "type", text (codes "https://taksees.app/errors/internal"))
      ∷ (codes "title", text (codes "Internal Server Error"))
      ∷ (codes "status", number 500)
      ∷ (codes "detail", text (codes "An unexpected error occurred."))
      ∷ (codes "instance", text uri)
      ∷ (codes "traceId", text trace_id)
      ∷ []

  -- `(problem.status as number) ?? HttpStatus.INTERNAL_SERVER_ERROR`
  unfoldable pub status_or_internal : Option Value → Value
  status_or_internal none = number 500
  status_or_internal (some null) = number 500
  status_or_internal (some v) = v

  -- `request.headers['x-request-id'] || randomUUID()`
  unfoldable pub trace_of : Option Text → Text → Text
  trace_of none fresh = fresh
  trace_of (some s) fresh = if is_empty s then fresh else s

  -- What `catch` sends: the argument of `response.status`, the `X-Request-Id` header, and the body.
  pub record Sent : Type 0 where
    pub status : Value
    pub request_id : Text
    pub body : Object

  unfoldable pub catch : Caught → Text → Option Text → Text → Sent
  catch exception uri request_id fresh =
      let trace_id = trace_of request_id fresh in
      let problem = problem_of exception uri trace_id in
      record {
        status = status_or_internal (get (codes "status") problem);
        request_id = trace_id;
        body = problem;
      }
