-- ===== src/Server/Laws.antt =====
-- One request id, and what a slow request is answered with.
use taksees.Prelude.{
  ℕ, ◌<◌, ◌≡◌, refl, ap, ◌∙◌, false, Option, none, some, Text, is_empty, codes, ◌++◌, Bool-cases,
  inl, inr,
}
use taksees.Filters.{Object, number}
use taksees.Filters.Http.{Response, Caught, http_exception, catch, trace_of}
use taksees.Filters.Laws.{last, fields_of, http_status_kept}
use taksees.Server.{
  timeout_error, thrown, Outcome, emits, fails, Run, stamp, request_id_of, catch_timeout, intercept,
  Stage, refused, handled, problem, reply_id, Fresh, timeout_ms, filtered, of_outcome,
  serve_stamped, serve,
}

req_of-given : (fresh : Text) → is_empty (codes "req_" ++ fresh) ≡ false
req_of-given fresh = refl

stamp-given : (header : Option Text) (fresh : Text) → is_empty (stamp header fresh) ≡ false
unfolding stamp
stamp-given none fresh = refl
stamp-given (some id) fresh = elim (Bool-cases (is_empty id)) [
  | inl blank ↦ rw blank refl
  | inr given ↦ rw given given
]

module _ (status_name : ℕ → Option Text) (digits : ℕ → Text)
    (timeout_response : Text → Response) where
  filtered-id :
      (A : Type 0) (e : Caught) (uri id fresh : Text)
      → is_empty id ≡ false
      → reply_id (filtered status_name digits timeout_response {A = A} e uri id fresh) ≡ id
  unfolding filtered catch trace_of
  filtered-id A e uri id fresh given = rw given refl

  pub filtered-problem :
      (A : Type 0) (e : Caught) (uri id fresh : Text)
      → is_empty id ≡ false
      → let sent = catch status_name digits e uri (some id) fresh in
        filtered status_name digits timeout_response {A = A} e uri id fresh
        ≡ problem id sent.status sent.body
  unfolding filtered catch trace_of
  filtered-problem A e uri id fresh given = rw given refl

  of_outcome-id :
      {A : Type 0} (o : Outcome A) (uri id fresh : Text)
      → is_empty id ≡ false
      → reply_id (of_outcome status_name digits timeout_response o uri id fresh) ≡ id
  of_outcome-id (emits a) uri id fresh given = refl
  of_outcome-id {A} (fails (thrown e)) uri id fresh given = filtered-id A e uri id fresh given
  of_outcome-id {A} (fails timeout_error) uri id fresh given = filtered-id A _ uri id fresh given

  module _ {A : Type 0} (timeout : ℕ → Run A → Outcome A) where
    -- Whatever happens to a request, a guard that throws, a handler that fails or a timeout
    -- included, the answer carries the id that the first middleware left in the headers: the
    -- client's own if it sent one that is not empty, and else the middleware's new one.
    pub serve-one_id :
        (stage : Stage A) (uri : Text) (header : Option Text) (fresh : Fresh)
        → reply_id (serve status_name digits timeout_response timeout stage uri header fresh)
          ≡ stamp header fresh.middleware
    unfolding serve serve_stamped request_id_of
    serve-one_id (refused e) uri header fresh =
        filtered-id A e uri _ _ (stamp-given header fresh.middleware)
    serve-one_id (handled run) uri header fresh =
        of_outcome-id (intercept timeout_response timeout timeout_ms run) uri _ _
          (stamp-given header fresh.middleware)

    -- What RxJS documents of `timeout`: a stream that takes longer fails with a `TimeoutError`, and
    -- one that ends before is left alone.
    pub record IsTimeout : Type 0 where
      pub late : (ms : ℕ) (run : Run A) → ms < run.ends_at → timeout ms run ≡ fails timeout_error
      pub in_time : (ms : ℕ) (run : Run A) → run.ends_at < ms → timeout ms run ≡ run.outcome

    -- If `timeout` of RxJS fails what takes longer than its limit, and the body that Nest gives the
    -- timeout exception has no field `status`, then a handler that takes more than 30 seconds is
    -- answered with the status 408, whatever it would have returned or thrown.
    pub serve-slow :
        (run : Run A) (uri : Text) (header : Option Text) (fresh : Fresh)
        → IsTimeout
        → last (codes "status") (fields_of (timeout_response (codes "Request timed out."))) ≡ none
        → 30000 < run.ends_at
        → (body : Object) × (serve status_name digits timeout_response timeout
              (handled run)
              uri
              header
              fresh
            ≡ problem (stamp header fresh.middleware) (number 408) body)
    unfolding serve serve_stamped intercept catch_timeout request_id_of
    serve-slow run uri header fresh lawful no_status slow =
        let id = stamp header fresh.middleware in
        let message = codes "Request timed out." in
        let sent =
          catch status_name digits (http_exception 408 message (timeout_response message)) uri
            (some id) fresh.filter in
        rw (lawful.late timeout_ms run slow) (
          sent.body,
          filtered-problem A _ uri id fresh.filter (stamp-given header fresh.middleware)
              ∙ ap (λ status. problem id status sent.body)
                  (http_status_kept status_name digits 408 message (timeout_response message) uri
                    (some id) fresh.filter no_status),
        )
