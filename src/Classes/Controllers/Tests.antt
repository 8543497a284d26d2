-- ===== src/Classes/Controllers/Tests.antt =====
-- Requests to the controllers, over repositories in memory.
use taksees.Prelude.{
  ◌≡◌, ◌≢◌, refl, true, false, List, [], ◌∷◌, none, some, Text, codes, arith, trim, is_space,
  to_lower, ◌===◌, if◌then◌else◌,
}
use taksees.Errors.{Exception, ok, throws, error}
use taksees.Effects.{Action, pure}
use taksees.Roles.{super_admin, leader, normalise_role, role_of_lower}
use taksees.Guards.Roles.{RawUser, with_id, check_role, resolve_user}
use taksees.Guards.Roles
use taksees.Guards.Roles.Laws.{roles_guard_iff}
use taksees.Guards.Tenant.{class_id_of, check_header, check_access, check_class}
use taksees.Guards.Tenant
use taksees.Guards.Tenant.Laws.{Grants}
use taksees.Classes.Level.{primary_1}
use taksees.Classes.Entities.{Class}
use taksees.Classes.Interfaces.{
  CreateClassInput, UpdateClassInput, ClassRepository, MemberRepository, ServantClassRepository,
  UserDirectory,
}
use taksees.Classes.Services.MemberService
use taksees.Classes.Services.ClassService.{check_leader}
use taksees.Classes.Services.ClassService
use taksees.Classes.Services.ServantService.{
  AssignResult, is_duplicate, missing_users, check_missing, existing_flags, try_assign, on_rejected,
  count, assign_loop,
}
use taksees.Classes.Services.ServantService
use taksees.Classes.Controllers.{
  Request, Outside, roles_guard, tenant_guard, both_guards, create_class, update_class,
  assign_servants,
}
use taksees.Classes.Controllers.Laws.{
  HasRole, tenant_request, roles_request, create_class_authorised, assign_servants_authorised,
  leader_updates_any_class,
}
use taksees.Classes.Controllers.Access.{assigns_servants, allowed, perform, perform-refused}

-- A log of what was written.
abbrev pub Log : Type 0
Log = List Text

abbrev pub unsupported : {A : Type 0} → Action Log A
unsupported s = (throws (error (codes "unsupported")), s)

abbrev klass : Class
klass = record {
  id = codes "c2";
  name = codes "Second";
  level = primary_1;
  leader_id = codes "u2";
  created_at = 0;
  updated_at = 0;
}

abbrev pub repo : ClassRepository Log
repo = record {
  find_by_id = λ id. pure (some klass);
  find_by_leader_id = λ id. unsupported;
  list = λ filter page. unsupported;
  create = λ input s. (ok klass, input.name ∷ s);
  update = λ id input s. (ok klass, id ∷ s);
  delete = λ id. unsupported;
  exists = λ id. pure true;
}

abbrev pub users : UserDirectory Log
users = record {
  exists = λ id. pure true;
  exists_many = λ ids. pure ids;
  count_servants = λ ids. unsupported;
}

abbrev pub mapping : ServantClassRepository Log
mapping = record {
  is_assigned = λ user class. pure false;
  assign = λ user class s. (ok tt, user ∷ s);
  unassign = λ user class. unsupported;
  list_by_class = λ class. unsupported;
  list_by_user = λ user. unsupported;
}

-- `u1` leads the class `c1`.
abbrev pub outside : Outside Log
outside = record {
  get_session = λ headers. ok none;
  parse_uuid = λ id. ok id;
  find_leader = λ s id. ok (if id === codes "c1" then some (codes "u1") else none);
  is_servant = λ s user class. ok false;
}

abbrev user_with : Text → RawUser
user_with role = record { id = codes "u1"; role = some role }

abbrev pub sent_by : Text → Request
sent_by role = record {
  user = some (user_with role);
  headers = [];
  class_header = some (codes "c1");
}

abbrev input : CreateClassInput
input = record { name = codes "Second"; level = primary_1; leader_id = codes "u2" }

create_test :
    create_class outside repo users (sent_by (codes "super_admin")) (ok input) []
    ≡ (ok klass, codes "Second" ∷ [])
unfolding create_class roles_guard Roles.can_activate resolve_user with_id check_role normalise_role
    role_of_lower to_lower ClassService.create check_leader ◌===◌
create_test = refl

creation_authorised_test :
    HasRole outside (sent_by (codes "super_admin")) (super_admin ∷ [])
    × ((i : CreateClassInput) × (ok input ≡ ok i)
        × (ClassService.create repo users i [] ≡ (ok klass, codes "Second" ∷ [])))
creation_authorised_test =
    create_class_authorised outside (sent_by (codes "super_admin")) repo users (ok input) []
      (codes "Second" ∷ []) klass create_test

abbrev pub counted : AssignResult
counted = record { assigned = 1; already_assigned = 0 }

-- The header names `c1`, the path `c2`.
assign_test :
    assign_servants outside repo mapping users
      (sent_by (codes "leader"))
      (codes "c2")
      (ok (codes "u5" ∷ []))
      []
    ≡ (ok counted, codes "u5" ∷ [])
unfolding assign_servants both_guards roles_guard tenant_guard Roles.can_activate resolve_user
    with_id check_role normalise_role role_of_lower to_lower Tenant.can_activate check_header
    check_access check_class class_id_of trim is_space ServantService.assign
    MemberService.check_class check_missing missing_users existing_flags assign_loop try_assign
    on_rejected is_duplicate ◌===◌
assign_test = refl

assign_servants_authorised_example :
    HasRole outside (sent_by (codes "leader")) (super_admin ∷ leader ∷ [])
    × ((class_id : Text) × Grants
          (outside.find_leader [])
          (outside.is_servant [])
          (tenant_request outside (sent_by (codes "leader")))
          class_id)
    × ((id : Text) × (ids : List Text) × (outside.parse_uuid (codes "c2") ≡ ok id)
        × (ok (codes "u5" ∷ []) ≡ ok ids)
        × (ServantService.assign repo mapping users id ids [] ≡ (ok counted, codes "u5" ∷ [])))
assign_servants_authorised_example =
    assign_servants_authorised outside (sent_by (codes "leader")) repo mapping users (codes "c2")
      (ok (codes "u5" ∷ [])) [] (codes "u5" ∷ []) counted assign_test

abbrev change : UpdateClassInput
change = record { name = some (codes "Renamed"); level = none; leader_id = none }

role_test : normalise_role (some (codes "leader")) ≡ leader
unfolding normalise_role role_of_lower to_lower ◌===◌
role_test = refl

header_test : trim (codes "c1") ≡ codes "c1"
unfolding trim is_space
header_test = refl

header_given : trim (codes "c1") ≢ []
header_given e = cc (header_test, e)

led_test : outside.find_leader [] (trim (codes "c1")) ≡ ok (some (codes "u1"))
unfolding trim is_space ◌===◌
led_test = refl

leader_updates_any_class_example :
    update_class outside repo users (sent_by (codes "leader")) (codes "c2") (ok change) []
    ≡ ClassService.update repo users (codes "c2") change []
leader_updates_any_class_example =
    leader_updates_any_class outside (sent_by (codes "leader")) repo users
      (user_with (codes "leader")) (codes "c1") (codes "c2") (codes "c2") change [] refl
      (ground arith) role_test refl header_given led_test refl

abbrev no_members : MemberRepository Log
no_members = record {
  find_by_id = λ id. unsupported;
  list_by_class = λ class_id filter page. unsupported;
  create = λ input. unsupported;
  create_many = λ inputs. unsupported;
  update = λ id input. unsupported;
  set_active = λ id is_active. unsupported;
}

-- A servant asks to assign servants, which takes a leader.
forbidden_test :
    (e : Exception) × (Roles.can_activate outside.get_session
        (some (super_admin ∷ leader ∷ []))
        (roles_request outside (sent_by (codes "servant")))
      ≡ throws e)
unfolding Roles.can_activate resolve_user with_id check_role normalise_role role_of_lower to_lower
    ◌===◌
forbidden_test = (_, refl)

servant_lacks :
    ¬ HasRole outside
      (sent_by (codes "servant"))
      (allowed (assigns_servants (codes "c2") (ok (codes "u5" ∷ []))))
servant_lacks h =
    let (passes, _) =
      roles_guard_iff outside.get_session (roles_request outside (sent_by (codes "servant")))
        super_admin (leader ∷ []) in
    let passed = passes.1 (h.user, h.speaks, h.listed) in let (e, refused) = forbidden_test in cc

perform-refused_example :
    (e : Exception) × (perform outside repo no_members mapping users
        (sent_by (codes "servant"))
        (assigns_servants (codes "c2") (ok (codes "u5" ∷ [])))
        []
      ≡ (throws e, []))
perform-refused_example =
    perform-refused outside repo no_members mapping users (sent_by (codes "servant"))
      (assigns_servants (codes "c2") (ok (codes "u5" ∷ []))) [] servant_lacks
