-- ===== src/Classes/Repositories/Members/Laws.antt =====
-- What a write through the member repository reads back.
use taksees.Prelude.{◌≡◌, refl, sym, ap, subst, ◌∙◌, Bool, true, [], Option, none, some, Text}
use taksees.Errors.{ok}
use taksees.Phone.{Phone}
use taksees.Classes.Entities.{MemberRow, member_of, member_from_prisma, phone_value}
use taksees.Classes.Entities.Laws.{IsStored, member_from_prisma_total}
use taksees.Classes.Interfaces.{
  CreateMemberInput, UpdateMemberInput, ClassRepository, Field, undefined, null, value,
}
use taksees.Classes.Services.MemberInput.{RawMember, create_input}
use taksees.Classes.Services.MemberService
use taksees.Classes.Services.MemberService.{check_class}
use taksees.Classes.Services.MemberService.Laws.{create_input-Matches}
use taksees.Classes.Repositories.Members.{
  MemberTable, MemberData, MemberChange, data_of, change_of, phone_change, create, update,
  set_active, repository,
}

-- The column of a row after an update that may name it.
abbrev pub or_kept : {A : Type 0} → Option A → A → A
or_kept none old = old
or_kept (some new) old = new

-- The documented behaviour of the client's writes to the members: the row that a write returns
-- holds the columns of its `data`, and an update keeps those that it does not name.
pub record IsMemberTable {S : Type 0} (table : MemberTable S) : Type 0 where
  pub row_at : S → Text → Option MemberRow
  pub create_lem :
      (columns : MemberData) (s t : S) (row : MemberRow)
      → table.create columns s ≡ (ok row, t)
      → (row.class_id ≡ columns.class_id)
        × (row.full_name ≡ columns.full_name)
        × (row.phone ≡ columns.phone)
        × (row.user_id ≡ columns.user_id)
  pub update_lem :
      (id : Text) (change : MemberChange) (s t : S) (old row : MemberRow)
      → row_at s id ≡ some old
      → table.update id change s ≡ (ok row, t)
      → (row.full_name ≡ or_kept change.full_name old.full_name)
        × (row.phone ≡ or_kept change.phone old.phone)
        × (row.is_active ≡ or_kept change.is_active old.is_active)
        × (row.id ≡ old.id)
        × (row.class_id ≡ old.class_id)
        × (row.user_id ≡ old.user_id)
        × (row.created_at ≡ old.created_at)

abbrev value_or_empty : Option Text → Text
value_or_empty none = []
value_or_empty (some v) = v

phone_value-injective : (p q : Option Phone) → phone_value p ≡ phone_value q → p ≡ q
phone_value-injective none none e = refl
phone_value-injective none (some q) e = cc
phone_value-injective (some p) none e = cc
phone_value-injective (some p) (some q) e =
    ap (λ v. some (record { value = v })) (ap value_or_empty e)

read_back :
    (row : MemberRow) (phone : Option Phone)
    → row.phone ≡ phone_value phone
    → IsStored (phone_value phone)
    → member_from_prisma row ≡ ok (member_of row phone)
read_back row phone e h =
    let (read, is_read, same) = member_from_prisma_total row (subst IsStored (sym e) h) in
    is_read ∙ ap (λ p. ok (member_of row p)) (phone_value-injective read phone (same ∙ e))

module _ {S : Type 0} (table : MemberTable S) (lawful : IsMemberTable table) where
  -- Over a table that behaves as documented: if the class is there, the phone is accepted and the
  -- table writes the row, `add_one` of the service over this repository returns the member of that
  -- row, with the phone that was written: reading the row back does not fail after the write.
  pub add_one_returns :
      (classes : ClassRepository S) (class_id : Text) (raw : RawMember) (input : CreateMemberInput)
      (row : MemberRow) (s u t : S)
      → classes.exists class_id s ≡ (ok true, u)
      → create_input class_id raw ≡ ok input
      → table.create (data_of input) u ≡ (ok row, t)
      → (MemberService.add_one (repository table) classes class_id raw s
          ≡ (ok (member_of row input.phone), t))
        × (row.class_id ≡ class_id)
        × (row.full_name ≡ raw.full_name)
        × (row.user_id ≡ raw.user_id)
  unfolding MemberService.add_one check_class create data_of
  add_one_returns classes class_id raw input row s u t known accepted written =
      let match = create_input-Matches class_id raw input accepted in
      let (same_class, same_name, same_phone, same_user) =
        lawful.create_lem (data_of input) u t row written in
      (
        rw (known, accepted, written, read_back row input.phone same_phone match.stored) refl,
        same_class ∙ match.same_class,
        same_name ∙ match.same_name,
        same_user ∙ match.same_user,
      )

  -- The phone of a member after an update.
  abbrev pub updated_phone : Field Phone → Option Phone → Option Phone
  updated_phone undefined old = old
  updated_phone null old = none
  updated_phone (value p) old = some p

  -- A phone that an update gives is one that the value object made.
  abbrev pub IsGiven : Field Phone → Type 0
  IsGiven undefined = Unit
  IsGiven null = Unit
  IsGiven (value p) = IsStored (some p.value)

  phone_change_lem :
      (field : Field Phone) (old : Option Phone)
      → or_kept (phone_change field) (phone_value old) ≡ phone_value (updated_phone field old)
  unfolding phone_change
  phone_change_lem undefined old = refl
  phone_change_lem null old = refl
  phone_change_lem (value p) old = refl

  updated_phone-IsStored :
      (field : Field Phone) (old : Option Phone)
      → IsGiven field
      → IsStored (phone_value old)
      → IsStored (phone_value (updated_phone field old))
  updated_phone-IsStored undefined old g h = h
  updated_phone-IsStored null old g h = tt
  updated_phone-IsStored (value p) old g h = g

  -- Over a table that behaves as documented: if the row of `id` has the phone `old_phone` in E.164
  -- form or none, and the table updates it, and a given phone is one too, then `update` returns the
  -- member of the new row: a field that the input leaves out is kept, a phone that is null is
  -- cleared, and any other field is the given one.
  pub update_returns :
      (id : Text) (input : UpdateMemberInput) (s t : S) (old row : MemberRow)
      (old_phone : Option Phone)
      → lawful.row_at s id ≡ some old
      → old.phone ≡ phone_value old_phone
      → IsStored (phone_value old_phone)
      → IsGiven input.phone
      → table.update id (change_of input) s ≡ (ok row, t)
      → (update table id input s ≡ (ok (member_of row (updated_phone input.phone old_phone)), t))
        × (row.full_name ≡ or_kept input.full_name old.full_name)
        × (row.is_active ≡ or_kept input.is_active old.is_active)
        × (row.class_id ≡ old.class_id)
        × (row.user_id ≡ old.user_id)
  unfolding update change_of
  update_returns id input s t old row old_phone there same stored given written =
      let (name, phone, active, _, class, user, _) =
        lawful.update_lem id (change_of input) s t old row there written in
      let now : row.phone ≡ phone_value (updated_phone input.phone old_phone) =
        phone
        ∙ (ap (or_kept (phone_change input.phone)) same ∙ phone_change_lem input.phone old_phone) in
      (
        rw
            (
              written,
              read_back row (updated_phone input.phone old_phone) now
                  (updated_phone-IsStored input.phone old_phone given stored),
            )
            refl,
        name,
        active,
        class,
        user,
      )

  -- Over a table that behaves as documented: if the row of `id` has the phone `old_phone` in E.164
  -- form or none, and the table updates it, then `set_active` returns a member with the given
  -- activity and all else as before, its phone included.
  pub set_active_returns :
      (id : Text) (is_active : Bool) (s t : S) (old row : MemberRow) (old_phone : Option Phone)
      → lawful.row_at s id ≡ some old
      → old.phone ≡ phone_value old_phone
      → IsStored (phone_value old_phone)
      → table.update id (record { full_name = none; phone = none; is_active = some is_active }) s
        ≡ (ok row, t)
      → (set_active table id is_active s ≡ (ok (member_of row old_phone), t))
        × (row.is_active ≡ is_active)
        × (row.full_name ≡ old.full_name)
        × (row.class_id ≡ old.class_id)
        × (row.user_id ≡ old.user_id)
  unfolding set_active
  set_active_returns id is_active s t old row old_phone there same stored written =
      let (name, phone, active, _, class, user, _) =
        lawful.update_lem id _ s t old row there written in
      (rw (written, read_back row old_phone (phone ∙ same) stored) refl, active, name, class, user)
