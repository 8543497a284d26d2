-- ===== src/Roles/Tests.antt =====
-- The theorems about roles at concrete strings.
use taksees.Prelude.{◌≡◌, refl, ◌↔◌, none, some, codes, arith, to_lower}
use taksees.Errors.{ok}
use taksees.Roles.{
  super_admin, leader, member, role_name, lower, normalise_role, coerce_role, before_update,
  servant,
}
use taksees.Roles.Laws.{normalise_role_least, before_update_misses, coercions_disagree}

lower_shout : lower (codes "SUPER_ADMIN") ≡ codes "super_admin"
unfolding to_lower
lower_shout = refl

missed_spelling_test :
    (before_update (some (codes "SUPER_ADMIN")) ≡ ok tt)
    × (normalise_role (some (codes "SUPER_ADMIN")) ≡ super_admin)
missed_spelling_test = before_update_misses (codes "SUPER_ADMIN") lower_shout (ground arith)

normalise_role_least_example :
    (normalise_role none ≡ member)
    × ((normalise_role (some (codes "Leader")) ≡ leader)
        ↔ (lower (codes "Leader") ≡ codes "leader"))
normalise_role_least_example = normalise_role_least leader (codes "Leader") (ground arith)

disagreement_test :
    (normalise_role (some (codes "super_admin")) ≡ super_admin)
    × (coerce_role (codes "super_admin") ≡ role_name servant)
disagreement_test = coercions_disagree super_admin
