-- ===== src/Start.antt =====
-- main.ts, worker.ts and the logging options of app.module.ts: how the program starts and stops. The
-- calls on the Nest application are a parameter; the printed lines are left out.
pub mod Laws
mod Tests
use taksees.Prelude.{
  ℕ, Bool, true, false, List, [], ◌∷◌, map, Option, none, some, Text, codes, ◌===◌, ◌||◌,
  if◌then◌else◌,
}
use taksees.Errors.{Result, ok, throws}
use taksees.Effects.{Action, pure, ◌>>=◌, ◌>>◌}
use taksees.Config.{AppConfig, Origin, cors_origin}

-- The options of the global `ValidationPipe`.
pub record PipeOptions : Type 0 where
  pub whitelist : Bool
  pub transform : Bool
  pub forbid_non_whitelisted : Bool
  pub enable_implicit_conversion : Bool

-- What the `DocumentBuilder` is given.
pub record Document : Type 0 where
  pub title : Text
  pub description : Text
  pub version : Text
  pub api_keys : List Text

-- A call on the application.
pub data AppCall : Type 0 where
  create : (body_parser buffer_logs : Bool) → AppCall
  use_logger : AppCall
  use_helmet : AppCall
  enable_cors : Origin → (credentials : Bool) → AppCall
  use_request_ids : AppCall
  use_body_parser : (type limit : Text) → AppCall
  use_global_pipes : PipeOptions → AppCall
  set_global_prefix : Text → (exclude : List Text) → AppCall
  setup_docs : (path : Text) → Document → (persist_authorization : Bool) → AppCall
  enable_shutdown_hooks : AppCall
  listen : (port : Option Text) → (host : Text) → AppCall

abbrev pub document : Document
document = record {
  title = codes "Taksees API";
  description = codes "Multi-class Sunday-school management backend.";
  version = codes "0.1.0";
  api_keys = codes "X-Class-Id" ∷ codes "Idempotency-Key" ∷ [];
}

-- The calls before the configuration is read.
abbrev pub first_calls : List AppCall
first_calls = create false true ∷ use_logger ∷ use_helmet ∷ []

-- The calls after it.
unfoldable pub configured_calls : AppConfig → List AppCall
configured_calls config =
    enable_cors (cors_origin config.cors_origins) true
    ∷ use_request_ids
    ∷ use_body_parser (codes "json") (codes "1mb")
    ∷ use_global_pipes (record {
      whitelist = true;
      transform = true;
      forbid_non_whitelisted = true;
      enable_implicit_conversion = false;
    })
    ∷ set_global_prefix (codes "api") (map codes ("health" ∷ "docs" ∷ "docs-json" ∷ []))
    ∷ setup_docs (codes "docs") document true
    ∷ enable_shutdown_hooks
    ∷ listen config.port (codes "0.0.0.0")
    ∷ []

-- How an entry point ends up: the process runs on, or exits.
pub data Ended : Type 0 where
  running : Ended
  exits : (code : ℕ) → Ended

-- `bootstrap().catch(…)`
abbrev pub or_exit : {S : Type 0} → Result (Unit {0}) × S → Ended × S
or_exit (ok _, s) = (running, s)
or_exit (throws e, s) = (exits 1, s)

module _ {S : Type 0} (call : AppCall → Action S (Unit {0})) where
  -- Statements one after the other.
  unfoldable pub run_calls : List AppCall → Action S (Unit {0})
  run_calls [] s = (ok tt, s)
  run_calls (c ∷ cs) s = (call c >> run_calls cs) s

  module _ (config_of : S → AppConfig) where
    -- `bootstrap` of main.ts; `config_of` is what `app.get(ConfigService)` finds.
    unfoldable pub bootstrap : Action S (Unit {0})
    bootstrap s = (run_calls first_calls >>= λ _ t. run_calls (configured_calls (config_of t)) t) s

    -- The end of main.ts.
    unfoldable pub main : S → Ended × S
    main s = or_exit (bootstrap s)

-- worker.ts: the context without a port, and the handlers of SIGTERM and SIGINT.
module _ {S : Type 0}
    (create_context use_pino enable_hooks on_sigterm on_sigint : Action S (Unit {0})) where
  unfoldable pub worker : S → Ended × S
  worker s =
      or_exit ((create_context >> (use_pino >> (enable_hooks >> (on_sigterm >> on_sigint)))) s)

-- A handler of worker.ts; a rejection of `close` is not handled, so there is no exit then.
abbrev pub exit_after : {S : Type 0} → Result (Unit {0}) × S → Option ℕ × S
exit_after (ok _, s) = (some 0, s)
exit_after (throws e, s) = (none, s)

unfoldable pub on_signal : {S : Type 0} → (close : Action S (Unit {0})) → S → Option ℕ × S
on_signal close s = exit_after (close s)

-- The options of the logger in app.module.ts.
pub record LogOptions : Type 0 where
  pub level : Option Text
  pub transport : Option Text
  pub redact : List Text
  pub remove : Bool

abbrev pub is : Option Text → Text → Bool
is none name = false
is (some value) name = value === name

-- `isDev`
unfoldable pub is_dev : AppConfig → Bool
is_dev config = is config.node_env (codes "development") || is config.node_env (codes "test")

unfoldable pub log_options : AppConfig → LogOptions
log_options config = record {
  level = config.log_level;
  transport = if is_dev config then some (codes "pino-pretty") else none;
  redact = map codes (
      "req.headers.authorization" ∷ "req.headers.cookie" ∷ "req.body.password" ∷ "req.body.token"
      ∷ "*.passwordHash" ∷ []);
  remove = true;
}
