-- ===== src/Auth/Laws.antt =====
-- Who has permissions, and when passwords work.
use taksees.Prelude.{
  ◌≡◌, refl, ap, ◌↔◌, Bool, true, false, not, Option, none, some, Text, codes, ===_iff,
}
use taksees.Roles.{UserRole, super_admin, leader, servant, member}
use taksees.Config.{Environ, var}
use taksees.Auth.{statements_of, permits, is_production, options}

-- A role that permits some action is super_admin.
pub permits-super_admin : (r : UserRole) (action : Text) → permits r action ≡ true → r ≡ super_admin
unfolding permits statements_of
permits-super_admin super_admin action h = refl
permits-super_admin leader action h = cc
permits-super_admin servant action h = cc
permits-super_admin member action h = cc

is_production_iff : (v : Option Text) → (is_production v ≡ true) ↔ (v ≡ some (codes "production"))
is_production_iff none = (λ e. cc, λ e. cc)
is_production_iff (some s) = (
  λ e. ap some ((===_iff s (codes "production")).0 e),
  λ e. let same : s ≡ codes "production" = cc in (===_iff s (codes "production")).1 same,
)

negated_iff : (b : Bool) → (not b ≡ false) ↔ (b ≡ true)
negated_iff true = (λ _. refl, λ _. refl)
negated_iff false = (λ e. cc, λ e. cc)

-- Sign-in by password is closed, and cookies are only sent over secure connections, exactly when
-- NODE_ENV is `production`, in that spelling.
pub options-production_iff :
    (env : Environ)
    → (((options env).email_and_password ≡ false)
        ↔ (var (codes "NODE_ENV") env ≡ some (codes "production")))
      × (((options env).use_secure_cookies ≡ true)
          ↔ (var (codes "NODE_ENV") env ≡ some (codes "production")))
unfolding options
options-production_iff env =
    let production = is_production_iff (var (codes "NODE_ENV") env) in
    let closed = negated_iff (is_production (var (codes "NODE_ENV") env)) in
    ((λ e. production.0 (closed.0 e), λ e. closed.1 (production.1 e)), production)
