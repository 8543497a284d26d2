-- ===== src/Auth/Tests.antt =====
-- The options in two environments.
use taksees.Prelude.{◌≡◌, ◌↔◌, refl, true, false, [], ◌∷◌, none, some, codes, ◌===◌}
use taksees.Config.{Environ, var}
use taksees.Auth.{options}
use taksees.Auth.Laws.{options-production_iff}

abbrev production : Environ
production = (codes "NODE_ENV", codes "production") ∷ (codes "GOOGLE_WORKSPACE_HD", []) ∷ []

options-production_iff_example :
    (((options production).email_and_password ≡ false)
      ↔ (var (codes "NODE_ENV") production ≡ some (codes "production")))
    × (((options production).use_secure_cookies ≡ true)
        ↔ (var (codes "NODE_ENV") production ≡ some (codes "production")))
options-production_iff_example = options-production_iff production

no_domain_test : (options production).google.hd ≡ none
unfolding options ◌===◌
no_domain_test = refl
