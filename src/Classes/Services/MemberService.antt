-- ===== src/Classes/Services/MemberService.antt =====
-- services/member.service.ts
pub mod Laws
mod Tests
use taksees.Prelude.{ℕ, Bool, true, false, List, [], ◌∷◌, Option, none, some, Text, length}
use taksees.Errors.{domain, class_not_found, member_not_found}
use taksees.Effects.{Action, then_do, ◌>>=◌, ◌>>◌, pure, raise, lift}
use taksees.Classes.Entities.{Member}
use taksees.Classes.Interfaces.{
  CreateMemberInput, UpdateMemberInput, ListMembersFilter, PageInfo, Paginated, ClassRepository,
  MemberRepository,
}
use taksees.Classes.Services.MemberInput.{
  RawMember, RawUpdate, create_input, create_inputs, update_input,
}

pub record BulkAddResult : Type 0 where
  pub created : ℕ
  pub items : List Member

abbrev pub no_filter : ListMembersFilter
no_filter = record { q = none; is_active = none }

-- `if (!(await this.classes.exists(classId))) throw new ClassNotFoundError(classId)`
unfoldable pub check_class : {S : Type 0} → Text → Bool → Action S (Unit {0})
check_class class_id true = pure tt
check_class class_id false = raise (domain (class_not_found class_id))

module _ {S : Type 0} (members : MemberRepository S) (classes : ClassRepository S) where
  unfoldable pub list : Text → ListMembersFilter → PageInfo → Action S (Paginated Member)
  list class_id filter page = do
    known ← classes.exists class_id
    check_class class_id known
    members.list_by_class class_id filter page

  -- The end of `getById`.
  unfoldable pub found_or_throw : Text → Option Member → Action S Member
  found_or_throw id none = raise (domain (member_not_found id))
  found_or_throw id (some member) = pure member

  unfoldable pub get_by_id : Text → Action S Member
  get_by_id id = do member ← members.find_by_id id; found_or_throw id member

  unfoldable pub add_one : Text → RawMember → Action S Member
  add_one class_id raw = do
    known ← classes.exists class_id
    check_class class_id known
    input ← lift (create_input class_id raw)
    members.create input

  unfoldable pub add_bulk : Text → List RawMember → Action S BulkAddResult
  add_bulk class_id rows = do
    known ← classes.exists class_id
    check_class class_id known
    inputs ← lift (create_inputs class_id rows)
    created ← members.create_many inputs
    page ←
        members.list_by_class class_id no_filter
          (record { page = 1; limit = length inputs; total = created })
    pure (record { created = created; items = page.rows })

  unfoldable pub update : Text → RawUpdate → Action S Member
  update id input = do get_by_id id; dto ← lift (update_input input); members.update id dto

  unfoldable pub set_active : Text → Bool → Action S Member
  set_active id is_active = do get_by_id id; members.set_active id is_active
