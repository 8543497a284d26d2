-- ===== src/Config.antt =====
-- config/env.validation.ts and config/configuration.ts. The environment is a list of variables and
-- their texts; `safeParse` of Zod is a parameter.
pub mod Laws
pub mod Origins
mod Tests
use taksees.Prelude.{
  ℕ, Bool, true, false, not, List, [], ◌∷◌, ◌++◌, map, Option, none, some, Text, codes, ◌===◌,
  if◌then◌else◌, is_empty, keep, join, split_on, trim,
}
use taksees.Errors.{Result, ok, throws, error}
use taksees.Validation.{
  Json, Format, email, url, min_length, max_length, has_format, begins, at_least, at_most, integer,
  text, Schema, string, coerced_int, enum, optional, default, object_of, union, Fields, no_more,
  field, Members, no_members, entry, object,
}
use taksees.Validation.Pipe.{Issue, Parsed, success, failure}

abbrev optional_text : Schema
optional_text = optional (string [])

abbrev pub port_schema : Schema
port_schema = default (integer 3000) (coerced_int (at_least 1 ∷ at_most 65535 ∷ []))

abbrev positive_or : ℕ → Schema
positive_or n = default (integer n) (coerced_int (at_least 1 ∷ []))

abbrev required : Schema
required = string (min_length 1 ∷ [])

abbrev text_or : Text → Schema → Schema
text_or value schema = default (text value) schema

abbrev pub default_secret : Text
default_secret = codes "change-me-in-production-please"

-- `envSchema`
abbrev pub env_fields : Fields
env_fields =
    field (codes "NODE_ENV")
      (text_or (codes "development")
        (enum (map codes ("development" ∷ "test" ∷ "production" ∷ []))))
      (field (codes "PORT") port_schema (
        field (codes "LOG_LEVEL")
          (text_or (codes "info") (
            enum (
              map codes ("fatal" ∷ "error" ∷ "warn" ∷ "info" ∷ "debug" ∷ "trace" ∷ "silent" ∷ []))))
          (field (codes "DATABASE_URL") required (
            field (codes "REDIS_URL") required (
              field (codes "STORAGE_DIR") (text_or (codes "./storage") required) (
                field (codes "CORS_ORIGINS") optional_text (
                  field (codes "THROTTLE_TTL") (positive_or 60) (
                    field (codes "THROTTLE_LIMIT") (positive_or 100) (
                      field (codes "VAPID_PUBLIC_KEY") optional_text (
                        field (codes "VAPID_PRIVATE_KEY") optional_text (
                          field (codes "VAPID_SUBJECT")
                            (optional (
                              union (string (has_format email ∷ []))
                                (string (begins (codes "mailto:") ∷ []))))
                            (field (codes "FILE_SIGNING_SECRET")
                              (text_or default_secret (string (min_length 16 ∷ [])))
                              (field (codes "GOOGLE_CLIENT_ID") optional_text (
                                field (codes "GOOGLE_CLIENT_SECRET") optional_text (
                                  field (codes "GOOGLE_REDIRECT_URI")
                                    (text_or
                                      (codes "http://localhost:3000/api/auth/callback/google")
                                      (string (has_format url ∷ [])))
                                    (field (codes "GOOGLE_WORKSPACE_HD") optional_text (
                                      field (codes "BOOTSTRAP_SUPER_ADMIN_EMAIL")
                                        (optional (string (has_format email ∷ [])))
                                        (field (codes "BOOTSTRAP_SUPER_ADMIN_NAME") optional_text (
                                          field (codes "BOOTSTRAP_SUPER_ADMIN_PASSWORD")
                                            (optional (string (min_length 8 ∷ [])))
                                            no_more)))))))))))))))))))

abbrev pub env_schema : Schema
env_schema = object_of env_fields

-- `issue.path.join('.') || '(root)'`
abbrev pub path_text : List Text → Text
path_text path =
    let joined = join (codes ".") path in if is_empty joined then codes "(root)" else joined

abbrev pub issue_line : Issue → Text
issue_line issue = codes "  - " ++ (path_text issue.path ++ (codes ": " ++ issue.message))

unfoldable pub env_error : List Issue → Text
env_error issues =
    codes "Invalid environment variables:\n" ++ join (codes "\n") (map issue_line issues)

-- The branches of `validateEnv`.
abbrev pub of_parsed : Parsed → Result Json
of_parsed (success value) = ok value
of_parsed (failure issues) = throws (error (env_error issues))

-- `validateEnv(config)`
unfoldable pub validate_env : (Schema → Json → Parsed) → Json → Result Json
validate_env safe_parse config = of_parsed (safe_parse env_schema config)

-- `process.env`
abbrev pub Environ : Type 0
Environ = List (Text × Text)

-- `process.env[name]`
abbrev pub var : Text → Environ → Option Text
var name [] = none
var name ((n, value) ∷ more) = if n === name then some value else var name more

-- The conditional of `corsOrigins`, on the parts of the variable.
unfoldable pub origins : Text → List Text
origins value = keep (λ s. not (is_empty s)) (map trim (split_on b',' value))

unfoldable pub cors_origins : Option Text → List Text
cors_origins none = []
cors_origins (some value) = if is_empty value then [] else origins value

pub record Throttler : Type 0 where
  pub ttl : Option Text
  pub limit : Option Text

pub record Vapid : Type 0 where
  pub public_key : Option Text
  pub private_key : Option Text
  pub subject : Option Text

pub record Google : Type 0 where
  pub client_id : Option Text
  pub client_secret : Option Text
  pub redirect_uri : Option Text
  pub workspace_hd : Option Text

pub record Bootstrap : Type 0 where
  pub super_admin_email : Option Text
  pub super_admin_name : Option Text
  pub super_admin_password : Option Text

-- `AppConfig`, with what the variables of the process hold: texts, or nothing
pub record AppConfig : Type 0 where
  pub node_env : Option Text
  pub port : Option Text
  pub log_level : Option Text
  pub database_url : Option Text
  pub redis_url : Option Text
  pub storage_dir : Option Text
  pub cors_origins : List Text
  pub throttler : Throttler
  pub vapid : Vapid
  pub file_signing_secret : Option Text
  pub google : Google
  pub bootstrap : Bootstrap

-- The factory of configuration.ts.
unfoldable pub configuration : Environ → AppConfig
configuration env = record {
  node_env = var (codes "NODE_ENV") env;
  port = var (codes "PORT") env;
  log_level = var (codes "LOG_LEVEL") env;
  database_url = var (codes "DATABASE_URL") env;
  redis_url = var (codes "REDIS_URL") env;
  storage_dir = var (codes "STORAGE_DIR") env;
  cors_origins = cors_origins (var (codes "CORS_ORIGINS") env);
  throttler = record {
    ttl = var (codes "THROTTLE_TTL") env;
    limit = var (codes "THROTTLE_LIMIT") env;
  };
  vapid = record {
    public_key = var (codes "VAPID_PUBLIC_KEY") env;
    private_key = var (codes "VAPID_PRIVATE_KEY") env;
    subject = var (codes "VAPID_SUBJECT") env;
  };
  file_signing_secret = var (codes "FILE_SIGNING_SECRET") env;
  google = record {
    client_id = var (codes "GOOGLE_CLIENT_ID") env;
    client_secret = var (codes "GOOGLE_CLIENT_SECRET") env;
    redirect_uri = var (codes "GOOGLE_REDIRECT_URI") env;
    workspace_hd = var (codes "GOOGLE_WORKSPACE_HD") env;
  };
  bootstrap = record {
    super_admin_email = var (codes "BOOTSTRAP_SUPER_ADMIN_EMAIL") env;
    super_admin_name = var (codes "BOOTSTRAP_SUPER_ADMIN_NAME") env;
    super_admin_password = var (codes "BOOTSTRAP_SUPER_ADMIN_PASSWORD") env;
  };
}

-- `origins.length > 0 ? origins : true` of main.ts: what `enableCors` is given
pub data Origin : Type 0 where
  any_origin : Origin
  one_of : List Text → Origin

unfoldable pub cors_origin : List Text → Origin
cors_origin [] = any_origin
cors_origin (origin ∷ more) = one_of (origin ∷ more)
