-- ===== src/Classes/Services/MemberService/Tests.antt =====
-- Runs of the member service over repositories in memory.
use taksees.Prelude.{
  ◌≡◌, refl, true, false, List, [], ◌∷◌, ◌++◌, Option, none, some, Text, codes, length, map, ◌===◌,
  is_space, is_digit, trim,
}
use taksees.Errors.{ok, throws, Exception, domain, error, class_not_found, invalid_phone}
use taksees.Effects.{Action, pure}
use taksees.Phone.{
  parse_default, parse, normalise, strip, is_format, international, with_country, e164,
}
use taksees.Classes.Entities.{Member, MemberRow, optional_phone, member_of}
use taksees.Classes.Interfaces.{CreateMemberInput, PageInfo, ClassRepository, MemberRepository}
use taksees.Classes.Services.MemberInput.{RawMember, create_input, create_inputs, input_with}
use taksees.Classes.Services.MemberService.{
  BulkAddResult, no_filter, check_class, list, add_one, add_bulk,
}
use taksees.Classes.Services.MemberService.Laws.{
  AllMatch, add_bulk_inputs, add_bulk_refused, unknown_class_refused,
}

-- The members that were written.
abbrev Table : Type 0
Table = List Member

abbrev unsupported : {A : Type 0} → Action Table A
unsupported s = (throws (error (codes "unsupported")), s)

abbrev row_of : CreateMemberInput → MemberRow
row_of input = record {
  id = codes "m1";
  class_id = input.class_id;
  user_id = input.user_id;
  full_name = input.full_name;
  phone = none;
  is_active = true;
  created_at = 0;
  updated_at = 0;
}

abbrev made : CreateMemberInput → Member
made input = member_of (row_of input) input.phone

abbrev members : MemberRepository Table
members = record {
  find_by_id = λ id. pure none;
  list_by_class = λ class_id filter page s. (ok (record { rows = s; meta = page }), s);
  create = λ input s. (ok (made input), made input ∷ s);
  create_many = λ inputs s. (ok (length inputs), map made inputs ++ s);
  update = λ id input. unsupported;
  set_active = λ id is_active. unsupported;
}

abbrev class_id : Text
class_id = codes "c1"

abbrev classes : ClassRepository Table
classes = record {
  find_by_id = λ id. unsupported;
  find_by_leader_id = λ id. unsupported;
  list = λ filter page. unsupported;
  create = λ input. unsupported;
  update = λ id input. unsupported;
  delete = λ id. unsupported;
  exists = λ id. pure (id === class_id);
}

abbrev named : Option Text → RawMember
named phone = record { full_name = codes "Mina"; phone = phone; user_id = none }

abbrev good : RawMember
good = named (some (codes "0123 456 7890"))

abbrev bad : RawMember
bad = named (some (codes "abc"))

abbrev input : CreateMemberInput
input = input_with class_id good (some (record { value = codes "+201234567890" }))

accepted_test : create_inputs class_id (good ∷ []) ≡ ok (input ∷ [])
unfolding create_inputs create_input optional_phone parse_default parse normalise strip is_format
    is_space international with_country e164 is_digit trim
accepted_test = refl

bad_phone_test : optional_phone bad.phone ≡ throws (domain (invalid_phone (codes "abc")))
unfolding optional_phone parse_default parse normalise strip is_format is_space international
    with_country e164 is_digit trim
bad_phone_test = refl

add_one_test : add_one members classes class_id good [] ≡ (ok (made input), made input ∷ [])
unfolding add_one check_class create_input optional_phone parse_default parse normalise strip
    is_format is_space international with_country e164 is_digit trim ◌===◌
add_one_test = refl

abbrev bulk : BulkAddResult
bulk = record { created = 1; items = made input ∷ [] }

add_bulk_test : add_bulk members classes class_id (good ∷ []) [] ≡ (ok bulk, made input ∷ [])
unfolding add_bulk check_class create_inputs create_input optional_phone parse_default parse
    normalise strip is_format is_space international with_country e164 is_digit trim ◌===◌
add_bulk_test = refl

bulk_inputs_test :
    (inputs : List CreateMemberInput) × (u v : Table) × (members.create_many inputs u ≡ (ok 1, v))
    × AllMatch class_id (good ∷ []) inputs
bulk_inputs_test =
    add_bulk_inputs members classes class_id (good ∷ []) [] (made input ∷ []) bulk add_bulk_test

class_found_test : classes.exists class_id [] ≡ (ok true, [])
unfolding ◌===◌
class_found_test = refl

add_bulk_refused_example :
    add_bulk members classes class_id (good ∷ bad ∷ good ∷ []) []
    ≡ (throws (domain (invalid_phone (codes "abc"))), [])
add_bulk_refused_example =
    add_bulk_refused members classes class_id (good ∷ []) bad (good ∷ []) (input ∷ []) _ [] []
      class_found_test accepted_test bad_phone_test

abbrev page : PageInfo
page = record { page = 1; limit = 20; total = 0 }

other_class_test : classes.exists (codes "c2") [] ≡ (ok false, [])
unfolding ◌===◌
other_class_test = refl

unknown_class_refused_test :
    let e : Exception = domain (class_not_found (codes "c2")) in
    (list members classes (codes "c2") no_filter page [] ≡ (throws e, []))
    × (add_one members classes (codes "c2") good [] ≡ (throws e, []))
    × (add_bulk members classes (codes "c2") (bad ∷ []) [] ≡ (throws e, []))
unknown_class_refused_test =
    unknown_class_refused members classes (codes "c2") no_filter page good (bad ∷ []) [] []
      other_class_test
