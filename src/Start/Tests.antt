-- ===== src/Start/Tests.antt =====
-- Starts of the program, with a log of the calls that were made.
use taksees.Prelude.{ℕ, ◌≡◌, refl, ℕ, ◌+◌, none, some, codes, [], ◌∷◌, ◌===◌}
use taksees.Errors.{ok, throws, error}
use taksees.Effects.{Action, pure}
use taksees.Config.{configuration}
use taksees.Start.{
  AppCall, listen, running, exits, configured_calls, run_calls, bootstrap, main, is_dev,
  log_options, on_signal,
}

-- A port that is taken.
taken : AppCall → Action ℕ (Unit {0})
taken (listen port host) n = (throws (error (codes "EADDRINUSE")), n)
taken _ n = (ok tt, n + 1)

counted_call : AppCall → Action ℕ (Unit {0})
counted_call _ n = (ok tt, n + 1)

start_test : main counted_call (λ _. configuration []) 0 ≡ (running, 11)
unfolding main bootstrap run_calls configured_calls counted_call configuration
start_test = refl

taken_test : main taken (λ _. configuration []) 0 ≡ (exits 1, 10)
unfolding main bootstrap run_calls configured_calls taken configuration
taken_test = refl

close_test : on_signal {S = ℕ} (pure tt) 7 ≡ (some 0, 7)
unfolding on_signal
close_test = refl

logger_test :
    ((log_options (configuration ((codes "NODE_ENV", codes "test") ∷ []))).transport
      ≡ some (codes "pino-pretty"))
    × ((log_options (configuration [])).transport ≡ none)
unfolding log_options is_dev configuration ◌===◌
logger_test = (refl, refl)
