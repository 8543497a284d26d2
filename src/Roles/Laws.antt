-- ===== src/Roles/Laws.antt =====
-- What the coercions of role strings grant, and where they disagree.
use taksees.Prelude.{
  [], ap, ◌≡◌, ◌≢◌, refl, sym, ◌∙◌, ◌↔◌, none, some, Text, codes, arith, ◌===◌, ===_iff, ===_self,
  to_lower,
}
use taksees.Errors.{ok}
use taksees.Roles.{
  UserRole, super_admin, leader, servant, member, role_name, is_user_role, stored_name, lower,
  role_of_lower, normalise_role, coerce_role, before_update,
}

role_of_lower-stored_name :
    (s : Text) → role_of_lower s ≢ member → s ≡ stored_name (role_of_lower s)
unfolding role_of_lower
role_of_lower-stored_name s h = ground (
  arith,
  ===_iff s (codes "super_admin"),
  ===_iff s (codes "leader"),
  ===_iff s (codes "servant"),
)

role_of_lower-eq : (s : Text) (r : UserRole) → r ≢ member → role_of_lower s ≡ r → s ≡ stored_name r
role_of_lower-eq s r h e = rw e at (role_of_lower-stored_name s (λ m. h (sym e ∙ m)))

role_of_lower-nil : role_of_lower [] ≡ member
unfolding role_of_lower ◌===◌
role_of_lower-nil = refl

pub role_of_lower-stored : (r : UserRole) → role_of_lower (stored_name r) ≡ r
unfolding role_of_lower ◌===◌
role_of_lower-stored super_admin = refl
role_of_lower-stored leader = refl
role_of_lower-stored servant = refl
role_of_lower-stored member = refl

-- `normaliseRole` grants a role above MEMBER only to the string of that role, in any case: every
-- other string, and a missing one, is MEMBER.
pub normalise_role_least :
    (r : UserRole) (s : Text)
    → r ≢ member
    → (normalise_role none ≡ member) × ((normalise_role (some s) ≡ r) ↔ (lower s ≡ stored_name r))
unfolding normalise_role
normalise_role_least r s h = (
  role_of_lower-nil,
  (λ e. role_of_lower-eq (lower s) r h e, λ e. ap role_of_lower e ∙ role_of_lower-stored r),
)

-- The update hook lets every spelling of the name but the lower-case one through, and RolesGuard
-- takes each of them for SUPER_ADMIN.
pub before_update_misses :
    (s : Text)
    → lower s ≡ codes "super_admin"
    → s ≢ codes "super_admin"
    → (before_update (some s) ≡ ok tt) × (normalise_role (some s) ≡ super_admin)
unfolding before_update normalise_role role_of_lower
before_update_misses s same other = (
  ground (arith, ===_iff s (codes "super_admin")),
  rw same (ground (arith, ===_self (codes "super_admin"))),
)

-- Of the strings in the role column, `normaliseRole` gives each its own role, and the coercion
-- of `getRole` and `fromPrisma` gives every one of them SERVANT.
pub coercions_disagree :
    (r : UserRole)
    → (normalise_role (some (stored_name r)) ≡ r)
      × (coerce_role (stored_name r) ≡ role_name servant)
unfolding normalise_role role_of_lower coerce_role is_user_role to_lower ◌===◌
coercions_disagree super_admin = (refl, refl)
coercions_disagree leader = (refl, refl)
coercions_disagree servant = (refl, refl)
coercions_disagree member = (refl, refl)
