-- ===== src/Classes/Services/MemberInput.antt =====
-- services/member.service.ts: the inputs that the service builds from a request's body.
use taksees.Prelude.{Bool, List, [], ◌∷◌, Option, Text}
use taksees.Errors.{Result, ok, ◌>>=◌}
use taksees.Phone.{Phone, parse_default}
use taksees.Classes.Entities.{optional_phone}
use taksees.Classes.Interfaces.{CreateMemberInput, UpdateMemberInput, Field, undefined, null, value}

-- One member of a request's body.
pub record RawMember : Type 0 where
  pub full_name : Text
  pub phone : Option Text
  pub user_id : Option Text

pub record RawUpdate : Type 0 where
  pub full_name : Option Text
  pub phone : Field Text
  pub is_active : Option Bool

abbrev pub input_with : Text → RawMember → Option Phone → CreateMemberInput
input_with class_id raw phone = record {
  class_id = class_id;
  full_name = raw.full_name;
  phone = phone;
  user_id = raw.user_id;
}

-- The input that `addOne` and `addBulk` build from one member.
unfoldable pub create_input : Text → RawMember → Result CreateMemberInput
create_input class_id raw = optional_phone raw.phone >>= λ phone. ok (input_with class_id raw phone)

-- `rows.map(...)`, which stops at the first phone that is rejected
unfoldable pub create_inputs : Text → List RawMember → Result (List CreateMemberInput)
create_inputs class_id [] = ok []
create_inputs class_id (raw ∷ rows) = do
  input ← create_input class_id raw
  inputs ← create_inputs class_id rows
  ok (input ∷ inputs)

-- The conditional of `update` on the phone.
unfoldable pub update_phone : Field Text → Result (Field Phone)
update_phone undefined = ok undefined
update_phone null = ok null
update_phone (value text) = parse_default text >>= λ p. ok (value p)

unfoldable pub update_input : RawUpdate → Result UpdateMemberInput
update_input input = update_phone input.phone >>= λ phone.
    ok (record { full_name = input.full_name; phone = phone; is_active = input.is_active })
