-- ===== src/Filters/Dispatch.antt =====
-- Which filter of app.module.ts an exception reaches. The order in which Nest tries the filters of
-- a module is a parameter.
use taksees.Prelude.{
  ℕ, ◌≡◌, ap, ◌===◌, Bool, true, false, List, [], ◌∷◌, reverse, Option, none, some, Text,
  if◌then◌else◌,
}
use taksees.Filters.{Value, number}
use taksees.Filters.Http.{Caught, unexpected, catch, problem_of, status_or_internal}
use taksees.Filters.Prisma.{PrismaError, report_of}

-- What is thrown: an error of the database client, or what the general filter tells apart.
pub data Thrown : Type 0 where
  prisma : PrismaError → Thrown
  other : Caught → Thrown

pub data Filter : Type 0 where
  prisma_exception_filter http_exception_filter : Filter

-- The `APP_FILTER` providers, in the order of app.module.ts.
abbrev pub app_filters : List Filter
app_filters = prisma_exception_filter ∷ http_exception_filter ∷ []

-- The argument of `@Catch`.
unfoldable pub catches : Filter → Thrown → Bool
catches prisma_exception_filter (prisma e) = true
catches prisma_exception_filter (other e) = false
catches http_exception_filter thrown = true

-- The first filter, of those in the order in which they are tried, that catches the exception.
unfoldable pub select : List Filter → Thrown → Option Filter
select [] thrown = none
select (f ∷ fs) thrown = if catches f thrown then some f else select fs thrown

-- An error of the database client is none of the classes that the general filter knows.
abbrev pub caught : Thrown → Caught
caught (prisma e) = unexpected
caught (other e) = e

abbrev report_status : Thrown → Value
report_status (prisma e) = number (report_of e).status
report_status (other e) = number 500

module _ (status_name : ℕ → Option Text) (digits : ℕ → Text) where
  -- The status that the selected filter sends.
  unfoldable pub answer : Option Filter → Thrown → Text → Option Text → Text → Value
  answer none thrown uri request_id fresh = number 500
  answer (some prisma_exception_filter) thrown uri request_id fresh = report_status thrown
  answer (some http_exception_filter) thrown uri request_id fresh =
      (catch status_name digits (caught thrown) uri request_id fresh).status

  -- If Nest tries the filters from the last provider to the first, as it does for the filters of a
  -- module, every error of the database client is answered with 500 by the general filter, the
  -- violation of a unique key included: the database filter is never reached.
  pub prisma_errors_internal :
      (nest_order : List Filter → List Filter)
      → ((fs : List Filter) → nest_order fs ≡ reverse fs)
      → (e : PrismaError) (uri : Text) (request_id : Option Text) (fresh : Text)
      → answer (select (nest_order app_filters) (prisma e)) (prisma e) uri request_id fresh
        ≡ number 500
  unfolding select catches answer catch problem_of status_or_internal ◌===◌
  prisma_errors_internal nest_order h e uri request_id fresh =
      ap (λ fs. answer (select fs (prisma e)) (prisma e) uri request_id fresh) (h app_filters)
