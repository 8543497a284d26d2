-- ===== src/Validation/Decode.antt =====
-- The types that modules/classes/dto/classes.dto.ts infers from its schemas, as what the handlers
-- read of a parsed value.
use taksees.Prelude.{ℕ, Bool, List, [], ◌∷◌, Option, none, some, Text, codes, ◌===◌, if◌then◌else◌}
use taksees.Classes.Level.{ClassLevel, level_name, class_levels}
use taksees.Classes.Interfaces.{
  CreateClassInput, UpdateClassInput, ListClassesFilter, ListMembersFilter, Field,
}
use taksees.Classes.Interfaces
use taksees.Classes.Services.MemberInput.{RawMember, RawUpdate}
use taksees.Classes.Controllers.{AddBody, single, members, Query}
use taksees.Validation.{
  Json, undefined, null, boolean, integer, text, array, object, Items, no_items, item, member_at,
}

module _ {A B : Type 0} where
  infixl 5 ◌>>=◌
  abbrev pub ◌>>=◌ : Option A → (A → Option B) → Option B
  none >>= next = none
  some a >>= next = next a

abbrev pub as_text : Json → Option Text
as_text (text s) = some s
as_text _ = none

abbrev pub as_number : Json → Option ℕ
as_number (integer n) = some n
as_number _ = none

abbrev pub as_flag : Json → Option Bool
as_flag (boolean b) = some b
as_flag _ = none

-- A key that may be left out.
abbrev pub left_out : {A : Type 0} → (Json → Option A) → Json → Option (Option A)
left_out read undefined = some none
left_out read v = read v >>= λ a. some (some a)

-- A key that may be left out or null, which the services do not tell apart.
abbrev pub null_or : {A : Type 0} → (Json → Option A) → Json → Option (Option A)
null_or read null = some none
null_or read v = left_out read v

-- A key that may be left out or null, which the services tell apart.
abbrev pub as_field : Json → Option (Field Text)
as_field undefined = some Interfaces.undefined
as_field null = some Interfaces.null
as_field v = as_text v >>= λ s. some (Interfaces.value s)

abbrev pub find_level : List ClassLevel → Text → Option ClassLevel
find_level [] s = none
find_level (level ∷ levels) s = if level_name level === s then some level else find_level levels s

abbrev pub as_level : Json → Option ClassLevel
as_level v = as_text v >>= find_level class_levels

abbrev pub as_list : {A : Type 0} → (Json → Option A) → Items → Option (List A)
as_list read no_items = some []
as_list read (item v more) = read v >>= λ a. as_list read more >>= λ list. some (a ∷ list)

-- `CreateClassDto`
unfoldable pub create_class_of : Json → Option CreateClassInput
create_class_of (object ms) = as_text (member_at (codes "name") ms) >>= λ name.
    as_level (member_at (codes "level") ms) >>= λ level.
    as_text (member_at (codes "leaderId") ms) >>= λ leader_id.
    some (record { name = name; level = level; leader_id = leader_id })
create_class_of _ = none

-- `UpdateClassDto`
unfoldable pub update_class_of : Json → Option UpdateClassInput
update_class_of (object ms) = left_out as_text (member_at (codes "name") ms) >>= λ name.
    left_out as_level (member_at (codes "level") ms) >>= λ level.
    left_out as_text (member_at (codes "leaderId") ms) >>= λ leader_id.
    some (record { name = name; level = level; leader_id = leader_id })
update_class_of _ = none

-- `ListClassesQueryDto`
unfoldable pub list_classes_of : Json → Option (Query ListClassesFilter)
list_classes_of (object ms) = left_out as_level (member_at (codes "level") ms) >>= λ level.
    left_out as_text (member_at (codes "leaderId") ms) >>= λ leader_id.
    as_number (member_at (codes "page") ms) >>= λ page.
    as_number (member_at (codes "limit") ms) >>= λ limit. some (record {
      filter = record { level = level; leader_id = leader_id };
      page = page;
      limit = limit;
    })
list_classes_of _ = none

unfoldable pub single_member_of : Json → Option RawMember
single_member_of (object ms) = as_text (member_at (codes "fullName") ms) >>= λ full_name.
    null_or as_text (member_at (codes "phone") ms) >>= λ phone.
    null_or as_text (member_at (codes "userId") ms) >>= λ user_id.
    some (record { full_name = full_name; phone = phone; user_id = user_id })
single_member_of _ = none

-- The value of `members`, if the body has it.
abbrev pub add_member_by : Json → Json → Option AddBody
add_member_by (array vs) body = as_list single_member_of vs >>= λ rows. some (members rows)
add_member_by undefined body = single_member_of body >>= λ raw. some (single raw)
add_member_by _ body = none

-- `AddMemberDto`, taken apart by `'members' in body`
unfoldable pub add_member_of : Json → Option AddBody
add_member_of (object ms) = add_member_by (member_at (codes "members") ms) (object ms)
add_member_of _ = none

-- `UpdateMemberDto`
unfoldable pub update_member_of : Json → Option RawUpdate
update_member_of (object ms) = left_out as_text (member_at (codes "fullName") ms) >>= λ full_name.
    as_field (member_at (codes "phone") ms) >>= λ phone.
    left_out as_flag (member_at (codes "isActive") ms) >>= λ is_active.
    some (record { full_name = full_name; phone = phone; is_active = is_active })
update_member_of _ = none

-- `ListMembersQueryDto`
unfoldable pub list_members_of : Json → Option (Query ListMembersFilter)
list_members_of (object ms) = left_out as_text (member_at (codes "q") ms) >>= λ q.
    left_out as_flag (member_at (codes "isActive") ms) >>= λ is_active.
    as_number (member_at (codes "page") ms) >>= λ page.
    as_number (member_at (codes "limit") ms) >>= λ limit.
    some (record { filter = record { q = q; is_active = is_active }; page = page; limit = limit })
list_members_of _ = none

-- `AssignServantDto`, whose `userIds` the handler reads
abbrev pub user_ids_by : Json → Option (List Text)
user_ids_by (array vs) = as_list as_text vs
user_ids_by _ = none

unfoldable pub assign_servant_of : Json → Option (List Text)
assign_servant_of (object ms) = user_ids_by (member_at (codes "userIds") ms)
assign_servant_of _ = none
