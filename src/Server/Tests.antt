-- ===== src/Server/Tests.antt =====
-- Requests through the server.
use taksees.Prelude.{
  ℕ, ◌≡◌, refl, [], ◌∷◌, Option, none, some, Text, codes, arith, ltb, ◌===◌, to_string,
  if◌then◌else◌,
}
use taksees.Filters.{Object, text, number}
use taksees.Filters.Http.{Response, fields, unexpected}
use taksees.Server.{
  Outcome, emits, fails, timeout_error, Run, refused, handled, problem, reply_id, value, Fresh,
  stamp, serve, serve_stamped, request_id_of, intercept, catch_timeout,
}
use taksees.Server.Laws.{IsTimeout, serve-one_id, serve-slow}

abbrev status_name : ℕ → Option Text
status_name n = none

-- The body that Nest documents for a timeout.
abbrev timeout_response : Text → Response
timeout_response message = fields (
    (codes "message", text message)
    ∷ (codes "error", text (codes "Request Timeout"))
    ∷ (codes "statusCode", number 408)
    ∷ [])

-- A stream that ends at the limit is in time here.
abbrev timeout : ℕ → Run ℕ → Outcome ℕ
timeout ms run = if ltb ms run.ends_at then fails timeout_error else run.outcome

timeout-IsTimeout : IsTimeout status_name to_string timeout_response timeout
timeout-IsTimeout = record { late = λ ms run h. ground arith; in_time = λ ms run h. ground arith }

abbrev fresh : Fresh
fresh = record { middleware = codes "m"; interceptor = codes "i"; filter = codes "f" }

abbrev slow : Run ℕ
slow = record { ends_at = 31000; outcome = emits 7 }

abbrev quick : Run ℕ
quick = record { ends_at = 20; outcome = emits 7 }

serve-one_id_example :
    reply_id (
      serve status_name to_string timeout_response timeout
        (refused unexpected)
        (codes "/api")
        (some [])
        fresh)
    ≡ stamp (some []) (codes "m")
serve-one_id_example =
    serve-one_id status_name to_string timeout_response timeout (refused unexpected) (codes "/api")
      (some []) fresh

slow_handler_test :
    (body : Object) × (serve status_name to_string timeout_response timeout
        (handled slow)
        (codes "/api")
        none
        fresh
      ≡ problem (stamp none (codes "m")) (number 408) body)
unfolding ◌===◌
slow_handler_test =
    serve-slow status_name to_string timeout_response timeout slow (codes "/api") none fresh
      timeout-IsTimeout refl (omega arith)

quick_test :
    serve status_name to_string timeout_response timeout
      (handled quick)
      (codes "/api")
      (some (codes "abc"))
      fresh
    ≡ value (codes "abc") 7
unfolding serve serve_stamped intercept catch_timeout request_id_of stamp
quick_test = refl
