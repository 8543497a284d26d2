-- ===== src/Server/Answers.antt =====
-- What the caller of a handler gets: the end of the handler's action through the filters of
-- common/filters, in the order in which Nest tries them, which is an argument. The body that Nest
-- gives its own exceptions and the columns that an error of the database names are parameters.
pub mod Laws
mod Tests
use taksees.Prelude.{ℕ, List, [], Option, none, some, Text}
use taksees.Errors.{
  Result, ok, throws, Exception, domain, http, prisma_known, error, HttpKind, bad_request,
  unauthorized, forbidden, request_timeout,
}
use taksees.Filters.{number}
use taksees.Filters.Http.{Response, Caught, domain_error, http_exception, unexpected, trace_of}
use taksees.Filters.Prisma.{PrismaError, known_request, report_of, body_of}
use taksees.Filters.Dispatch.{
  Thrown, prisma, other, Filter, prisma_exception_filter, http_exception_filter, select, caught,
}
use taksees.Server.{Reply, value, problem, filtered}

-- The status of Nest's exceptions.
unfoldable pub status_of : HttpKind → ℕ
status_of bad_request = 400
status_of unauthorized = 401
status_of forbidden = 403
status_of request_timeout = 408

module _ (http_response : ℕ → Text → Response) (target_of : Text → Option (List Text)) where
  -- What the filters tell apart of an exception.
  unfoldable pub thrown_of : Exception → Thrown
  thrown_of (domain e) = other (domain_error e)
  thrown_of (http kind text) =
      other (http_exception (status_of kind) text (http_response (status_of kind) text))
  thrown_of (prisma_known code) = prisma (known_request code (target_of code))
  thrown_of (error message) = other unexpected

  module _ (status_name : ℕ → Option Text) (digits : ℕ → Text) {A : Type 0} where
    abbrev database_reply : PrismaError → (uri trace_id : Text) → Reply A
    database_reply e uri trace_id =
        let report = report_of e in
        problem trace_id (number report.status) (body_of report uri trace_id)

    -- The answer of a filter; the first two clauses are never reached, since the general filter
    -- catches everything and the database filter only its own errors.
    unfoldable pub reply_of : Option Filter → Thrown → (uri id fresh : Text) → Reply A
    reply_of none thrown uri id fresh = problem id (number 500) []
    reply_of (some prisma_exception_filter) (other e) uri id fresh = problem id (number 500) []
    reply_of (some prisma_exception_filter) (prisma e) uri id fresh =
        database_reply e uri (trace_of status_name digits (some id) fresh)
    reply_of (some http_exception_filter) thrown uri id fresh =
        filtered status_name digits (http_response 408) (caught thrown) uri id fresh

    -- The filters in the order in which they are tried.
    unfoldable pub respond :
        {S : Type 0} → List Filter → Result A × S → (uri id fresh : Text) → Reply A × S
    respond filters (ok a, s) uri id fresh = (value id a, s)
    respond filters (throws e, s) uri id fresh =
        (reply_of (select filters (thrown_of e)) (thrown_of e) uri id fresh, s)
