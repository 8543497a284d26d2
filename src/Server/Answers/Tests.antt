-- ===== src/Server/Answers/Tests.antt =====
-- Answers to requests that fail.
use taksees.Prelude.{
  ℕ, ◌≡◌, refl, inr, Bool, false, List, [], ◌∷◌, reverse, Option, none, some, Text, codes,
  to_string, is_space, is_digit, to_lower, trim, length, ◌==◌, ◌===◌,
}
use taksees.Errors.{ok, throws, prisma_known}
use taksees.Roles.{super_admin, leader, servant, normalise_role, role_of_lower}
use taksees.Guards.Roles.{with_id, check_role, resolve_user}
use taksees.Guards.Roles
use taksees.Guards.Tenant.{class_id_of, check_header, check_access, check_class}
use taksees.Guards.Tenant
use taksees.Phone.{e164, normalise, strip, is_format, international, with_country}
use taksees.Filters.{Object, number, get}
use taksees.Filters
use taksees.Filters.Http.{Response, fields, trace_of}
use taksees.Filters.Prisma.{known_request, report_of, body_of}
use taksees.Filters.Dispatch.{app_filters, select, catches}
use taksees.Classes.Entities.{optional_phone}
use taksees.Classes.Interfaces.{CreateMemberInput, MemberRepository}
use taksees.Classes.Services.MemberInput.{RawMember, create_input, create_inputs}
use taksees.Classes.Controllers.{
  members, add_members, auth_user, both_guards, roles_guard, tenant_guard,
}
use taksees.Classes.Controllers.Tests.{Log, unsupported, repo, outside, sent_by}
use taksees.Validation.{Json, null, text, array, object, no_items, item, no_members, entry, Format}
use taksees.Validation.Dto.{add_member_schema}
use taksees.Validation.Decode.{add_member_of, single_member_of}
use taksees.Validation.Pipe.{Issue, Messages, transform, argument_of}
use taksees.Validation.Checker.{accepts, check}
use taksees.Server.{problem}
use taksees.Server.Answers.{thrown_of, reply_of, respond}
use taksees.Server.Answers.Laws.{bad_phone_answered}

abbrev status_name : ℕ → Option Text
status_name n = none

-- The body that Nest documents for an exception that is given a text.
abbrev http_response : ℕ → Text → Response
http_response status message =
    fields ((codes "message", Filters.text message) ∷ (codes "statusCode", number status) ∷ [])

abbrev member_repo : MemberRepository Log
member_repo = record {
  find_by_id = λ id. unsupported;
  list_by_class = λ class_id filter page. unsupported;
  create = λ input. unsupported;
  create_many = λ inputs. unsupported;
  update = λ id input. unsupported;
  set_active = λ id is_active. unsupported;
}

-- The database filter answers its own errors if it is tried first.
first_tried_test :
    respond http_response
      (λ code. none)
      status_name
      to_string
      {A = ℕ}
      {S = ℕ}
      app_filters
      (throws (prisma_known (codes "P2002")), 5)
      (codes "/api")
      (codes "r1")
      (codes "f")
    ≡ (
      problem
          (codes "r1")
          (number 409)
          (body_of (report_of (known_request (codes "P2002") none)) (codes "/api") (codes "r1")),
      5,
    )
unfolding respond reply_of thrown_of select catches report_of trace_of ◌===◌
first_tried_test = refl

abbrev matches : Format → Text → Bool
matches format s = length s == 36

abbrev flatten : List Issue → Messages
flatten issues = []

abbrev member_json : Json → Json
member_json phone =
    object
      (entry (codes "fullName") (text (codes "Mariam")) (entry (codes "phone") phone no_members))

-- The second of two members has a phone of seven code units that is no number.
abbrev body : Json
body = object (
    entry (codes "members")
      (array (item (member_json null) (item (member_json (text (codes "call me"))) no_items)))
      no_members)

abbrev raw_with : Option Text → RawMember
raw_with phone = record { full_name = codes "Mariam"; phone = phone; user_id = none }

body_read :
    argument_of add_member_of (transform (check matches) flatten add_member_schema body)
    ≡ ok (members (raw_with none ∷ raw_with (some (codes "call me")) ∷ []))
unfolding transform check accepts add_member_of single_member_of ◌===◌
body_read = refl

bad_number : e164 (normalise (codes "+20") (codes "call me")) ≡ false
unfolding e164 normalise strip is_format international with_country is_space is_digit
bad_number = refl

-- The member without a phone, who comes first.
abbrev before : List CreateMemberInput
before =
    record { class_id = codes "c2"; full_name = codes "Mariam"; phone = none; user_id = none } ∷ []

before_read : create_inputs (codes "c2") (raw_with none ∷ []) ≡ ok before
unfolding create_inputs create_input optional_phone
before_read = refl

abbrev active : Tenant.Request
active = record {
  user = auth_user (sent_by (codes "leader")).user;
  class_header = some (codes "c1");
  active_class_id = some (codes "c1");
}

guarded :
    both_guards outside (super_admin ∷ leader ∷ servant ∷ []) (sent_by (codes "leader")) []
    ≡ (ok active, [])
unfolding both_guards roles_guard tenant_guard Roles.can_activate resolve_user with_id check_role
    normalise_role role_of_lower to_lower Tenant.can_activate check_header check_access check_class
    class_id_of trim is_space ◌===◌
guarded = refl

bad_phone_answered_example :
    (sent : Object) × (respond http_response
        (λ code. none)
        status_name
        to_string
        (reverse app_filters)
        (add_members outside member_repo repo
          (sent_by (codes "leader"))
          (codes "c2")
          (argument_of add_member_of (transform (check matches) flatten add_member_schema body))
          [])
        (codes "/api")
        (codes "r1")
        (codes "f")
      ≡ (problem (codes "r1") (number 422) sent, []))
    × (get (codes "code") sent ≡ some (Filters.text (codes "INVALID_PHONE")))
bad_phone_answered_example =
    bad_phone_answered status_name to_string http_response (λ code. none) outside member_repo repo
      (check matches) flatten (reverse app_filters) (sent_by (codes "leader")) (codes "c2")
      (codes "c2") body (raw_with none ∷ []) (raw_with (some (codes "call me"))) [] before
      (codes "call me") active [] [] [] (codes "/api") (codes "r1") (codes "f") (inr refl) guarded
      refl body_read refl before_read refl refl bad_number refl
