-- ===== src/Classes/Repositories/Members.antt =====
-- repositories/prisma-member.repository.ts
pub mod Laws
pub mod Order
pub mod Pages
pub mod Invariant
mod Tests
mod PageTests
use taksees.Prelude.{
  ℕ, Bool, true, false, List, [], ◌∷◌, map, Option, none, some, Text, is_empty, if◌then◌else◌,
}
use taksees.Errors.{Result, ok, throws, ◌>>=◌}
use taksees.Effects.{Action, then_do, pure, lift}
use taksees.Phone.{Phone}
use taksees.Classes.Entities.{Member, MemberRow, member_from_prisma, phone_value}
use taksees.Classes.Interfaces.{
  CreateMemberInput, UpdateMemberInput, ListMembersFilter, PageInfo, Paginated, MemberRepository,
  Field, undefined, null, value,
}
use taksees.Classes.Repositories.Paging.{Offset, Direction, asc, desc, skip}

-- `where` of `listByClass`
pub record MemberWhere : Type 0 where
  pub class_id : Text
  pub is_active : Option Bool
  pub full_name_contains : Option Text

-- A column of `orderBy`, with its direction.
pub data Column : Type 0 where
  by_active by_full_name : Column

abbrev pub OrderBy : Type 0
OrderBy = List (Column × Direction)

-- `orderBy` of `listByClass`
abbrev pub order_by : OrderBy
order_by = (by_active, desc) ∷ (by_full_name, asc) ∷ []

-- `data` of `create` and `createMany`
pub record MemberData : Type 0 where
  pub class_id : Text
  pub full_name : Text
  pub phone : Option Text
  pub user_id : Option Text

-- `data` of `update`: the columns that it names
pub record MemberChange : Type 0 where
  pub full_name : Option Text
  pub phone : Option (Option Text)
  pub is_active : Option Bool

-- `prisma.member`: the calls that the repository makes. A search runs with its count in one
-- transaction.
pub record MemberTable (S : Type 0) : Type 0 where
  pub find_unique : (id : Text) → Action S (Option MemberRow)
  pub find_many_and_count :
      MemberWhere → OrderBy → Offset → (take : ℕ) → Action S (List MemberRow × ℕ)
  pub create : MemberData → Action S MemberRow
  -- with `skipDuplicates`; the number of rows written
  pub create_many : List MemberData → Action S ℕ
  pub update : (id : Text) → MemberChange → Action S MemberRow

-- `...(filter.q ? { fullName: … } : {})`, which drops the empty text
unfoldable pub contains_of : Option Text → Option Text
contains_of none = none
contains_of (some q) = if is_empty q then none else some q

unfoldable pub where_of : Text → ListMembersFilter → MemberWhere
where_of class_id filter = record {
  class_id = class_id;
  is_active = filter.is_active;
  full_name_contains = contains_of filter.q;
}

unfoldable pub data_of : CreateMemberInput → MemberData
data_of input = record {
  class_id = input.class_id;
  full_name = input.full_name;
  phone = phone_value input.phone;
  user_id = input.user_id;
}

-- `if (input.phone !== undefined) data.phone = input.phone ? input.phone.value : null`
unfoldable pub phone_change : Field Phone → Option (Option Text)
phone_change undefined = none
phone_change null = some none
phone_change (value p) = some (some p.value)

unfoldable pub change_of : UpdateMemberInput → MemberChange
change_of input = record {
  full_name = input.full_name;
  phone = phone_change input.phone;
  is_active = input.is_active;
}

-- `rows.map(Member.fromPrisma)`
unfoldable pub members_from_prisma : List MemberRow → Result (List Member)
members_from_prisma [] = ok []
members_from_prisma (row ∷ rows) = member_from_prisma row >>= λ member.
    members_from_prisma rows >>= λ members. ok (member ∷ members)

-- `row ? Member.fromPrisma(row) : null`
unfoldable pub optional_member : Option MemberRow → Result (Option Member)
optional_member none = ok none
optional_member (some row) = member_from_prisma row >>= λ member. ok (some member)

-- The page that a search and its count make.
unfoldable pub page_of : PageInfo → List MemberRow × ℕ → Result (Paginated Member)
page_of page (rows, total) = members_from_prisma rows >>= λ members. ok (record {
  rows = members;
  meta = record { page = page.page; limit = page.limit; total = total };
})

module _ {S : Type 0} (table : MemberTable S) where
  unfoldable pub find_by_id : Text → Action S (Option Member)
  find_by_id id s = then_do (table.find_unique id s) (λ row. lift (optional_member row))

  unfoldable pub list_by_class : Text → ListMembersFilter → PageInfo → Action S (Paginated Member)
  list_by_class class_id filter page s =
      then_do
        (table.find_many_and_count (where_of class_id filter) order_by (skip page.page page.limit)
          page.limit s)
        (λ found. lift (page_of page found))

  unfoldable pub create : CreateMemberInput → Action S Member
  create input s = then_do (table.create (data_of input) s) (λ row. lift (member_from_prisma row))

  unfoldable pub create_many : List CreateMemberInput → Action S ℕ
  create_many inputs = table.create_many (map data_of inputs)

  unfoldable pub update : Text → UpdateMemberInput → Action S Member
  update id input s =
      then_do (table.update id (change_of input) s) (λ row. lift (member_from_prisma row))

  unfoldable pub set_active : Text → Bool → Action S Member
  set_active id is_active s =
      then_do
        (table.update id (record { full_name = none; phone = none; is_active = some is_active }) s)
        (λ row. lift (member_from_prisma row))

  abbrev pub repository : MemberRepository S
  repository = record {
    find_by_id = find_by_id;
    list_by_class = list_by_class;
    create = create;
    create_many = create_many;
    update = update;
    set_active = set_active;
  }
