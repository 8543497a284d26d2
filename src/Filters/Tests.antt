-- ===== src/Filters/Tests.antt =====
-- Runs of the exception filters.
use taksees.Prelude.{
  ℕ, ◌≡◌, ◌≢◌, refl, [], ◌∷◌, reverse, Option, none, some, Text, codes, join, ◌===◌, to_lower, ◌==◌,
  if◌then◌else◌,
}
use taksees.Filters.{null, text, number, json, slug}
use taksees.Filters.Http.{
  Response, fields, http_exception, catch, problem_of, base_of, extras_of, message_of, detail_of,
  trace_of,
}
use taksees.Filters.Prisma.{known_request, report_of, body_of}
use taksees.Filters.Dispatch.{prisma, app_filters, select, answer, prisma_errors_internal}
use taksees.Filters.Laws.{fields_of, last, http_status_kept, http_status_overridden}

abbrev names : ℕ → Option Text
names n = if n == 400 then some (codes "BAD_REQUEST") else none

abbrev digits : ℕ → Text
digits n = codes "400"

abbrev uri : Text
uri = codes "/api/classes"

-- The body of the exception that the validation pipe throws.
abbrev invalid_body : Response
invalid_body =
    fields (
      (codes "message", text (codes "Validation failed"))
      ∷ (codes "errors", json (codes "{}"))
      ∷ [])

invalid_test :
    (catch names digits
      (http_exception 400 (codes "Bad Request Exception") invalid_body)
      uri
      none
      (codes "t1")).body
    ≡ (codes "type", text (codes "https://taksees.app/errors/http-400"))
      ∷ (codes "title", text (codes "BAD_REQUEST"))
      ∷ (codes "status", number 400)
      ∷ (codes "detail", text (codes "Validation failed"))
      ∷ (codes "instance", text uri)
      ∷ (codes "traceId", text (codes "t1"))
      ∷ (codes "errors", json (codes "{}"))
      ∷ []
unfolding catch problem_of base_of extras_of message_of detail_of trace_of ◌===◌
invalid_test = refl

-- The body that the health checks of Terminus throw with their 503.
abbrev unhealthy : Response
unhealthy = fields (
    (codes "status", text (codes "error"))
    ∷ (codes "info", json (codes "{}"))
    ∷ (codes "error", json (codes "{}"))
    ∷ (codes "details", json (codes "{}"))
    ∷ [])

no_status_test : last (codes "status") (fields_of invalid_body) ≡ none
unfolding ◌===◌
no_status_test = refl

status_kept_test :
    (catch names digits
      (http_exception 400 (codes "Bad Request Exception") invalid_body)
      uri
      none
      (codes "t1")).status
    ≡ number 400
status_kept_test =
    http_status_kept names digits 400 (codes "Bad Request Exception") invalid_body uri none
      (codes "t1") no_status_test

status_test : last (codes "status") (fields_of unhealthy) ≡ some (text (codes "error"))
unfolding ◌===◌
status_test = refl

text-ne-null : (t : Text) → text t ≢ null
text-ne-null t e = cc

http_status_overridden_example :
    (catch names digits
      (http_exception 503 (codes "Service Unavailable Exception") unhealthy)
      uri
      none
      (codes "t1")).status
    ≡ text (codes "error")
http_status_overridden_example =
    http_status_overridden names digits 503 (codes "Service Unavailable Exception") unhealthy uri
      none (codes "t1") (text (codes "error")) status_test (text-ne-null (codes "error"))

duplicate_test :
    body_of
      (report_of (known_request (codes "P2002") (some (codes "leaderId" ∷ codes "name" ∷ []))))
      uri
      (codes "t1")
    ≡ (codes "type", text (codes "https://taksees.app/errors/unique-violation"))
      ∷ (codes "title", text (codes "Conflict"))
      ∷ (codes "status", number 409)
      ∷ (codes "detail", text (codes "A record with this leaderId, name already exists."))
      ∷ (codes "code", text (codes "UNIQUE_VIOLATION"))
      ∷ (codes "instance", text uri)
      ∷ (codes "traceId", text (codes "t1"))
      ∷ []
unfolding body_of report_of slug join ◌===◌ to_lower
duplicate_test = refl

prisma_errors_internal_example :
    answer names digits
      (select (reverse app_filters) (prisma (known_request (codes "P2002") none)))
      (prisma (known_request (codes "P2002") none))
      uri
      none
      (codes "t1")
    ≡ number 500
prisma_errors_internal_example =
    prisma_errors_internal names digits reverse (λ fs. refl) (known_request (codes "P2002") none)
      uri none (codes "t1")
