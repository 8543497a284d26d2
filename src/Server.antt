-- ===== src/Server.antt =====
-- main.ts (the middleware before the routes), common/interceptors/ and where they meet the
-- exception filter: what a request is answered with, and its request id. `timeout` of RxJS, and the
-- body that Nest gives a timeout exception, are parameters; new ids are arguments; the
-- log lines are left out.
pub mod Laws
pub mod Answers
mod Tests
use taksees.Prelude.{ℕ, Bool, ◌++◌, Option, none, some, Text, codes, is_empty, if◌then◌else◌}
use taksees.Filters.{Value, Object}
use taksees.Filters.Http.{Response, Caught, http_exception, unexpected, catch}

-- What a handler's stream can fail with: RxJS's `TimeoutError`, or what was thrown.
pub data Fault : Type 0 where
  timeout_error : Fault
  thrown : Caught → Fault

pub data Outcome (A : Type 0) : Type 0 where
  emits : A → Outcome A
  fails : Fault → Outcome A

-- A handler that ends after some milliseconds.
pub record Run (A : Type 0) : Type 0 where
  pub ends_at : ℕ
  pub outcome : Outcome A

abbrev req_of : Text → Text
req_of fresh = codes "req_" ++ fresh

-- The middleware of main.ts: the `x-request-id` that it leaves in the headers.
unfoldable pub stamp : Option Text → Text → Text
stamp none fresh = req_of fresh
stamp (some id) fresh = if is_empty id then req_of fresh else id

-- The id that LoggingInterceptor takes or makes, and writes to both sides.
unfoldable pub request_id_of : Option Text → Text → Text
request_id_of none fresh = req_of fresh
request_id_of (some id) fresh = id

module _ (timeout_response : Text → Response) where
  -- `catchError` of TimeoutInterceptor.
  unfoldable pub catch_timeout : {A : Type 0} → Outcome A → Outcome A
  catch_timeout (emits a) = emits a
  catch_timeout (fails timeout_error) = fails (
      thrown (
        http_exception 408 (codes "Request timed out.")
          (timeout_response (codes "Request timed out."))))
  catch_timeout (fails (thrown e)) = fails (thrown e)

  -- `intercept`, with `timeout` of RxJS
  unfoldable pub intercept :
      {A : Type 0} → (timeout : ℕ → Run A → Outcome A) → (timeout_ms : ℕ) → Run A → Outcome A
  intercept timeout timeout_ms run = catch_timeout (timeout timeout_ms run)

-- How far a request comes: a guard throws, or the handler runs.
pub data Stage (A : Type 0) : Type 0 where
  refused : Caught → Stage A
  handled : Run A → Stage A

-- The answer and its `X-Request-Id`: a value, or the problem that the filter sends.
pub data Reply (A : Type 0) : Type 0 where
  value : (request_id : Text) → A → Reply A
  problem : (request_id : Text) → (status : Value) → (body : Object) → Reply A

abbrev pub reply_id : {A : Type 0} → Reply A → Text
reply_id (value id a) = id
reply_id (problem id status body) = id

-- What is drawn for a request: an id in each of the three places.
pub record Fresh : Type 0 where
  pub middleware : Text
  pub interceptor : Text
  pub filter : Text

-- `new TimeoutInterceptor(30_000)` of app.module.ts
abbrev pub timeout_ms : ℕ
timeout_ms = 30000

module _ (status_name : ℕ → Option Text) (digits : ℕ → Text)
    (timeout_response : Text → Response) where
  -- The general filter, with the id that the headers hold by then.
  unfoldable pub filtered : {A : Type 0} → Caught → (uri id fresh : Text) → Reply A
  filtered e uri id fresh =
      let sent = catch status_name digits e uri (some id) fresh in
      problem sent.request_id sent.status sent.body

  abbrev pub of_outcome : {A : Type 0} → Outcome A → (uri id fresh : Text) → Reply A
  of_outcome (emits a) uri id fresh = value id a
  of_outcome (fails (thrown e)) uri id fresh = filtered e uri id fresh
  of_outcome (fails timeout_error) uri id fresh = filtered unexpected uri id fresh

  module _ {A : Type 0} (timeout : ℕ → Run A → Outcome A) where
    -- The branches on the stage, after the middleware.
    unfoldable pub serve_stamped : Stage A → (uri id : Text) → Fresh → Reply A
    serve_stamped (refused e) uri id fresh = filtered e uri id fresh.filter
    serve_stamped (handled run) uri id fresh =
        of_outcome (intercept timeout_response timeout timeout_ms run) uri
          (request_id_of (some id) fresh.interceptor) fresh.filter

    -- A request with its `x-request-id` header, through the middleware, the guards, both
    -- interceptors and the filter.
    unfoldable pub serve : Stage A → (uri : Text) → (header : Option Text) → Fresh → Reply A
    serve stage uri header fresh = serve_stamped stage uri (stamp header fresh.middleware) fresh
