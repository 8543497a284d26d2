-- ===== src/Config/Tests.antt =====
-- Environments and origins.
use taksees.Prelude.{
  ◌≡◌, ◌↔◌, refl, Bool, true, List, [], ◌∷◌, none, some, Text, codes, join, trim, is_space,
  split_on, all, ◌===◌,
}
use taksees.Errors.{ok}
use taksees.Validation.{Json, integer, text, object, no_members, entry, Format}
use taksees.Validation.Checker.{accepts, check, check-IsZod}
use taksees.Config.{
  validate_env, env_error, origins, cors_origins, any_origin, one_of, cors_origin, configuration,
}
use taksees.Config.Origins.{IsOrigin, Means, none_left, blank, means, cors_origins-Means}
use taksees.Config.Laws.{is_gap, IsEnvironment, any_origin-cors_iff, validate_env-IsEnvironment}

abbrev pages : List Text
pages = codes "https://a.org" ∷ codes "https://b.org" ∷ []

-- The pieces of " https://a.org ,, https://b.org".
abbrev pieces : List Text
pieces = codes " https://a.org " ∷ [] ∷ codes " https://b.org" ∷ []

pages-IsOrigin : IsOrigin (codes "https://a.org") × IsOrigin (codes "https://b.org")
unfolding is_space
pages-IsOrigin = ((refl, refl, refl), (refl, refl, refl))

pieces-Means : Means pieces pages
unfolding is_space
pieces-Means = means (codes " ") (codes "https://a.org") (codes " ") refl pages-IsOrigin.0 refl (
    blank [] refl
      (means (codes " ") (codes "https://b.org") [] refl pages-IsOrigin.1 refl none_left))

cors_origins-Means_example : cors_origins (some (join (codes ",") pieces)) ≡ pages
cors_origins-Means_example = cors_origins-Means pieces pages pieces-Means

spaces_test : cors_origins (some (codes " https://a.org ,, https://b.org")) ≡ pages
unfolding cors_origins origins split_on trim is_space
spaces_test = refl

open_origins_test :
    (cors_origin (cors_origins none) ≡ any_origin)
    × ((cors_origin (cors_origins (some (codes " , "))) ≡ any_origin)
        ↔ (all is_gap (codes " , ") ≡ true))
open_origins_test = any_origin-cors_iff (codes " , ")

restricted_test :
    cors_origin (cors_origins (some (codes "https://a.org"))) ≡ one_of (codes "https://a.org" ∷ [])
unfolding cors_origin cors_origins origins split_on trim is_space
restricted_test = refl

-- Every text has the format here.
abbrev matches : Format → Text → Bool
matches format s = true

-- A production environment without the variables of Google.
abbrev production : Json
production = object (
    entry (codes "NODE_ENV") (text (codes "production")) (
      entry (codes "PORT") (integer 8080) (
        entry (codes "LOG_LEVEL") (text (codes "info")) (
          entry (codes "DATABASE_URL") (text (codes "postgres://db")) (
            entry (codes "REDIS_URL") (text (codes "redis://cache")) (
              entry (codes "STORAGE_DIR") (text (codes "/srv/files")) (
                entry (codes "THROTTLE_TTL") (integer 60) (
                  entry (codes "THROTTLE_LIMIT") (integer 100) (
                    entry (codes "FILE_SIGNING_SECRET") (text (codes "sixteen letters!")) (
                      entry (codes "GOOGLE_REDIRECT_URI") (text (codes "https://a.org/callback"))
                        no_members))))))))))

production_valid : validate_env (check matches) production ≡ ok production
unfolding validate_env check accepts ◌===◌
production_valid = refl

validate_env-IsEnvironment_example : IsEnvironment production
validate_env-IsEnvironment_example =
    validate_env-IsEnvironment (check matches) matches (check-IsZod matches) production production
      production_valid

error_test :
    env_error (
      record { path = codes "DATABASE_URL" ∷ []; message = codes "Required" }
      ∷ record { path = []; message = codes "Bad" }
      ∷ [])
    ≡ codes "Invalid environment variables:\n  - DATABASE_URL: Required\n  - (root): Bad"
unfolding env_error join
error_test = refl

port_test : (configuration ((codes "PORT", codes "8080") ∷ [])).port ≡ some (codes "8080")
unfolding configuration ◌===◌
port_test = refl
