-- ===== src/Guards/Tests.antt =====
-- Runs of the two guards on cases of their spec files, and the theorems at concrete requests.
use taksees.Prelude.{
  ◌≡◌, ◌≢◌, refl, ◌↔◌, Bool, true, false, List, [], ◌∷◌, Option, none, some, Text, codes, arith,
  ◌===◌, join, is_space, to_lower, trim,
}
use taksees.Errors.{Result, ok, throws, http, forbidden}
use taksees.Roles.{super_admin, leader, normalise_role, role_of_lower}
use taksees.Guards.Roles
use taksees.Guards.Roles.{
  RawUser, one, many, absent, header_list, with_id, check_role, resolve_user,
}
use taksees.Guards.Roles.Laws.{IsListed, Authenticated, roles_guard_iff}
use taksees.Guards.Tenant.{
  Request, class_id_of, activate, check_servant, check_class, check_access, check_header,
  can_activate,
}
use taksees.Guards.Tenant.Laws.{Grants, tenant_guard_iff, super_admin_refused}

-- One class "c1", led by "u1", with the servant "u2".
abbrev leader_of : Text → Result (Option Text)
unfolding ◌===◌
leader_of id = elim (id === codes "c1") [ true ↦ ok (some (codes "u1")) | false ↦ ok none ]

abbrev serves_in : Text → Text → Result Bool
unfolding ◌===◌
serves_in user class_id = ok (user === codes "u2")

abbrev request : Text → Text → Text → Request
request id role header = record {
  user = some (record { id = id; role = role });
  class_header = some header;
  active_class_id = none;
}

run : Request → Result Request
unfolding can_activate check_header check_access check_class check_servant class_id_of trim is_space
    ◌===◌
run = can_activate leader_of serves_in

leader_passes :
    run (request (codes "u1") (codes "leader") (codes " c1 "))
    ≡ ok (activate (request (codes "u1") (codes "leader") (codes " c1 ")) (codes "c1"))
unfolding run
leader_passes = refl

servant_passes :
    run (request (codes "u2") (codes "servant") (codes "c1"))
    ≡ ok (activate (request (codes "u2") (codes "servant") (codes "c1")) (codes "c1"))
unfolding run
servant_passes = refl

unknown_class :
    run (request (codes "u1") (codes "leader") (codes "c2"))
    ≡ throws (http forbidden (codes "Class not found."))
unfolding run
unknown_class = refl

blank_header :
    run (request (codes "u1") (codes "leader") (codes "  "))
    ≡ throws (http forbidden (codes "Missing X-Class-Id tenant context header."))
unfolding run
blank_header = refl

tenant_guard_iff_example :
    (can_activate leader_of serves_in (request (codes "u1") (codes "leader") (codes " c1 "))
      ≡ ok (activate (request (codes "u1") (codes "leader") (codes " c1 ")) (codes "c1")))
    ↔ ((class_id : Text) × Grants leader_of serves_in
          (request (codes "u1") (codes "leader") (codes " c1 "))
          class_id
        × (activate (request (codes "u1") (codes "leader") (codes " c1 ")) (codes "c1")
            ≡ activate (request (codes "u1") (codes "leader") (codes " c1 ")) class_id))
tenant_guard_iff_example = tenant_guard_iff leader_of serves_in _ _

abbrev no_session : List (Text × Text) → Result (Option RawUser)
no_session headers = ok none

abbrev asked : Roles.Request
asked = record {
  user = some (record { id = codes "u1"; role = some (codes "Leader") });
  headers = (codes "cookie", one (codes "a")) ∷ [];
}

header_list_test :
    header_list (
      (codes "a", one (codes "1"))
      ∷ (codes "b", many (codes "2" ∷ codes "3" ∷ []))
      ∷ (codes "c", absent)
      ∷ [])
    ≡ (codes "a", codes "1") ∷ (codes "b", codes "2, 3") ∷ []
unfolding header_list join
header_list_test = refl

roles_guard_iff_example :
    ((Roles.can_activate no_session (some (super_admin ∷ leader ∷ [])) asked ≡ ok true) ↔ (
      (u : RawUser) × Authenticated no_session asked u
      × IsListed (normalise_role u.role) (super_admin ∷ leader ∷ [])))
    × (Roles.can_activate no_session (some (super_admin ∷ leader ∷ [])) asked ≢ ok false)
roles_guard_iff_example = roles_guard_iff no_session asked super_admin (leader ∷ [])

role_refused :
    Roles.can_activate no_session (some (super_admin ∷ leader ∷ [])) (record {
      user = some (record { id = codes "u9"; role = some (codes "servant") });
      headers = [];
    })
    ≡ throws
        (http forbidden (codes "Role 'SERVANT' is not in the required set [SUPER_ADMIN, LEADER]."))
unfolding Roles.can_activate check_role resolve_user with_id join normalise_role role_of_lower
    to_lower ◌===◌
role_refused = refl

header_test : trim (codes "c1") ≡ codes "c1"
unfolding trim is_space
header_test = refl

super_admin_refused_example :
    (Roles.can_activate no_session (some (super_admin ∷ [])) (record {
      user = some (record { id = codes "root"; role = some (codes "super_admin") });
      headers = [];
    })
      ≡ ok true)
    × (can_activate leader_of serves_in (request (codes "root") (codes "super_admin") (codes "c1"))
        ≡ throws (http forbidden (codes "No access to this class context.")))
unfolding trim is_space ◌===◌
super_admin_refused_example =
    super_admin_refused leader_of serves_in no_session [] [] (codes "root") (codes "c1")
      (codes "u1") (ground arith) (ground arith) refl (ground arith) refl
