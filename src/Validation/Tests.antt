-- ===== src/Validation/Tests.antt =====
-- Requests through the pipe, with the checker of Checker in Zod's place.
use taksees.Prelude.{
  ◌-◌, ◌*◌, ◌≤◌, ◌≡◌, refl, ◌⊎◌, Bool, true, List, [], ◌∷◌, none, some, Text, codes, All, ◌===◌,
  ===_self, ◌==◌, length, is_space, to_lower, trim,
}
use taksees.Errors.{ok, throws, http, bad_request}
use taksees.Roles.{normalise_role, role_of_lower}
use taksees.Guards.Roles.{with_id, check_role, resolve_user}
use taksees.Guards.Roles
use taksees.Guards.Tenant.{class_id_of, check_header, check_access, check_class}
use taksees.Guards.Tenant
use taksees.Classes.Interfaces.{ListMembersFilter}
use taksees.Classes.Services.MemberInput.{RawMember}
use taksees.Classes.Services.MemberService
use taksees.Classes.Services.ServantService.{
  is_duplicate, missing_users, check_missing, existing_flags, try_assign, on_rejected, count,
  assign_loop,
}
use taksees.Classes.Services.ServantService
use taksees.Classes.Controllers.{
  Query, AddBody, single, members, assign_servants, both_guards, roles_guard, tenant_guard,
}
use taksees.Classes.Controllers.Tests.{repo, users, mapping, outside, sent_by, counted}
use taksees.Classes.Repositories.Paging.{skip, pos}
use taksees.Validation.{
  Json, null, integer, text, array, object, no_items, item, no_members, entry, Format, uuid,
}
use taksees.Validation.Dto.{add_member_schema, list_members_query_schema, assign_servant_schema}
use taksees.Validation.Decode.{add_member_of, single_member_of, list_members_of, assign_servant_of}
use taksees.Validation.Pipe.{
  Issue, Messages, passed, transform, argument_of, format_errors, copy_fields, add_roots,
}
use taksees.Validation.Laws.Requests.{
  adds_member, transform-typed, list_query_bounded, add_body_bounded, assigned_ids_uuids,
}
use taksees.Validation.Laws.Refusals.{
  IsAmong, here, later, IsFlat, Reports, key_of, format_errors_complete,
}
use taksees.Validation.Checker.{accepts, check, check-IsZod}

-- A UUID is what has 36 code units here.
abbrev matches : Format → Text → Bool
matches format s = length s == 36

abbrev flatten : List Issue → Messages
flatten issues = (codes "name", codes "Too short" ∷ []) ∷ []

abbrev member_json : Json
member_json =
    object
      (entry (codes "fullName") (text (codes "Mariam")) (entry (codes "phone") null no_members))

member_passes : transform (check matches) flatten add_member_schema member_json ≡ passed member_json
unfolding transform check accepts ◌===◌
member_passes = refl

transform-typed_example : (x : AddBody) × (add_member_of member_json ≡ some x)
transform-typed_example =
    transform-typed (check matches) matches (check-IsZod matches) flatten adds_member member_json
      member_json member_passes

abbrev two_members : Json
two_members =
    object
      (entry (codes "members") (array (item member_json (item member_json no_items))) no_members)

abbrev raw : RawMember
raw = record { full_name = codes "Mariam"; phone = none; user_id = none }

two_read :
    argument_of add_member_of (transform (check matches) flatten add_member_schema two_members)
    ≡ ok (members (raw ∷ raw ∷ []))
unfolding transform check accepts add_member_of single_member_of ◌===◌
two_read = refl

add_body_bounded_example :
    ((r : RawMember) × (members (raw ∷ raw ∷ []) ≡ single r))
    ⊎ ((rows : List RawMember) × (members (raw ∷ raw ∷ []) ≡ members rows)
        × (1 ≤ length rows)
        × (length rows ≤ 200))
add_body_bounded_example =
    add_body_bounded (check matches) matches (check-IsZod matches) flatten two_members
      (members (raw ∷ raw ∷ [])) two_read

abbrev query_json : Json
query_json =
    object (entry (codes "page") (integer 3) (entry (codes "limit") (integer 20) no_members))

abbrev query : Query ListMembersFilter
query = record { filter = record { q = none; is_active = none }; page = 3; limit = 20 }

query_read :
    argument_of list_members_of
      (transform (check matches) flatten list_members_query_schema query_json)
    ≡ ok query
unfolding transform check accepts list_members_of ◌===◌
query_read = refl

list_query_bounded_example : (1 ≤ 20) × (20 ≤ 100) × (skip 3 20 ≡ pos ((3 - 1) * 20))
list_query_bounded_example =
    list_query_bounded (check matches) matches (check-IsZod matches) flatten query_json query
      query_read

abbrev page_zero : Json
page_zero =
    object (entry (codes "page") (integer 0) (entry (codes "limit") (integer 20) no_members))

page_zero_test :
    argument_of list_members_of
      (transform (check matches) flatten list_members_query_schema page_zero)
    ≡ throws (http bad_request (codes "Validation failed"))
unfolding transform check accepts ◌===◌
page_zero_test = refl

abbrev user_id : Text
user_id = codes "123e4567-e89b-12d3-a456-426614174000"

abbrev ids_json : Json
ids_json = object (entry (codes "userIds") (array (item (text user_id) no_items)) no_members)

assign_run :
    assign_servants outside repo mapping users
      (sent_by (codes "leader"))
      (codes "c2")
      (argument_of assign_servant_of
        (transform (check matches) flatten assign_servant_schema ids_json))
      []
    ≡ (ok counted, user_id ∷ [])
unfolding transform check accepts assign_servant_of assign_servants both_guards roles_guard
    tenant_guard Roles.can_activate resolve_user with_id check_role normalise_role role_of_lower
    to_lower Tenant.can_activate check_header check_access check_class class_id_of trim is_space
    ServantService.assign MemberService.check_class check_missing missing_users existing_flags
    assign_loop try_assign on_rejected is_duplicate ◌===◌
assign_run = refl

assigned_ids_uuids_example :
    (id : Text) × (ids : List Text) × (ServantService.assign repo mapping users id ids []
      ≡ (ok counted, user_id ∷ []))
    × (1 ≤ length ids)
    × (length ids ≤ 50)
    × All (λ u. matches uuid u ≡ true) ids
assigned_ids_uuids_example =
    assigned_ids_uuids (check matches) matches (check-IsZod matches) flatten outside
      (sent_by (codes "leader")) repo mapping users (codes "c2") ids_json [] (user_id ∷ []) counted
      assign_run

abbrev short_name : Issue
short_name = record { path = codes "name" ∷ []; message = codes "Too short" }

abbrev no_fields : Issue
no_fields = record { path = []; message = codes "No fields to update." }

abbrev issues : List Issue
issues = short_name ∷ no_fields ∷ []

name_flat :
    (issue : Issue) (key : Text) (path : List Text)
    → IsAmong issue issues
    → issue.path ≡ key ∷ path
    → Reports (flatten issues) key issue.message
name_flat _ key path here e =
    let same : codes "name" ≡ key = cc in
    rw (← same) (rw (===_self (codes "name")) (rw (===_self (codes "Too short")) refl))
name_flat _ key path (later here) e = cc
name_flat issue key path (later (later never)) e = elim never [ ]

issues-IsFlat : IsFlat issues (flatten issues)
issues-IsFlat = record { unique = (tt, tt); complete = name_flat }

format_errors_complete_example :
    Reports (format_errors flatten issues) (key_of []) (codes "No fields to update.")
format_errors_complete_example =
    format_errors_complete flatten issues no_fields issues-IsFlat (later here)

errors_test :
    format_errors flatten issues
    ≡ (codes "name", codes "Too short" ∷ [])
      ∷ (codes "_root", codes "No fields to update." ∷ [])
      ∷ []
unfolding format_errors copy_fields add_roots ◌===◌
errors_test = refl
