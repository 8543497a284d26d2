-- ===== src/Classes/Repositories/Members/Tests.antt =====
-- A sequence of calls of the member service over a table in memory.
use taksees.Prelude.{
  true, false, List, [], ◌∷◌, ◌++◌, map, length, Option, none, some, Text, codes, All, All-append,
}
use taksees.Errors.{Result, ok, throws, error}
use taksees.Effects.{Action, pure}
use taksees.Classes.Entities.{MemberRow}
use taksees.Classes.Entities.Laws.{IsStored}
use taksees.Classes.Interfaces.{ClassRepository}
use taksees.Classes.Services.MemberInput.{RawMember}
use taksees.Classes.Services.MemberService
use taksees.Classes.Repositories.Members.{MemberTable, MemberData, repository}
use taksees.Classes.Repositories.Members.Laws.{or_kept}
use taksees.Classes.Repositories.Members.Invariant.{
  OfChange, IsPhoneTable, Reaches, here, then_step, adds_one, adds_bulk, sets_active,
  phones_stay_valid,
}

-- The phones of the rows; the other columns are the same in every row.
abbrev Phones : Type 0
Phones = List (Option Text)

abbrev row_with : Option Text → MemberRow
row_with phone = record {
  id = codes "m1";
  class_id = codes "c1";
  user_id = none;
  full_name = codes "Mina";
  phone = phone;
  is_active = true;
  created_at = 0;
  updated_at = 0;
}

abbrev phone_of : MemberData → Option Text
phone_of columns = columns.phone

abbrev found : Phones → Option MemberRow
found [] = none
found (phone ∷ phones) = some (row_with phone)

-- The first row is updated.
abbrev update_first : Option (Option Text) → Phones → Result MemberRow × Phones
update_first change [] = (throws (error (codes "P2025")), [])
update_first change (phone ∷ phones) =
    (ok (row_with (or_kept change phone)), or_kept change phone ∷ phones)

abbrev table : MemberTable Phones
table = record {
  find_unique = λ id s. (ok (found s), s);
  find_many_and_count = λ w order k n s. (ok (map row_with s, length s), s);
  create = λ columns s. (ok (row_with columns.phone), columns.phone ∷ s);
  create_many = λ rows s. (ok (length rows), map phone_of rows ++ s);
  update = λ id change. update_first change.phone;
}

abbrev unsupported : {A : Type 0} → Action Phones A
unsupported s = (throws (error (codes "unsupported")), s)

abbrev classes : ClassRepository Phones
classes = record {
  find_by_id = λ id. unsupported;
  find_by_leader_id = λ id. unsupported;
  list = λ filter page. unsupported;
  create = λ input. unsupported;
  update = λ id input. unsupported;
  delete = λ id. unsupported;
  exists = λ id. pure true;
}

All-map :
    (P : Option Text → Type 0) (rows : List MemberData)
    → All (λ columns. P columns.phone) rows
    → All P (map phone_of rows)
All-map P [] h = tt
All-map P (row ∷ rows) (p, h) = (p, All-map P rows h)

or_kept-All :
    (P : Option Text → Type 0) (change : Option (Option Text)) (phone : Option Text)
    → OfChange P change
    → P phone
    → P (or_kept change phone)
or_kept-All P none phone c p = p
or_kept-All P (some new) phone c p = c

update_first-All :
    (P : Option Text → Type 0) (change : Option (Option Text)) (s : Phones)
    → OfChange P change
    → All P s
    → All P (update_first change s).1
update_first-All P change [] c h = tt
update_first-All P change (phone ∷ s) c (p, h) = (or_kept-All P change phone c p, h)

abbrev table-IsPhoneTable : IsPhoneTable table classes
table-IsPhoneTable = record {
  phones = λ s. s;
  after-exists = λ P id s h. h;
  after-find_unique = λ P id s h. h;
  after-find_many = λ P w o k n s h. h;
  after-create = λ P columns s p h. (p, h);
  after-create_many = λ P rows s p h. All-append P (map phone_of rows) s (All-map P rows p) h;
  after-update = λ P id change s c h. update_first-All P change.phone s c h;
}

abbrev local : RawMember
local = record { full_name = codes "Mina"; phone = some (codes "0123 456 7890"); user_id = none }

abbrev wrong : RawMember
wrong = record { full_name = codes "Mark"; phone = some (codes "abc"); user_id = none }

-- A member is added, a batch with a wrong phone is refused, and the member is made inactive.
abbrev added : Phones
added = (MemberService.add_one (repository table) classes (codes "c1") local []).1

abbrev refused : Phones
refused =
    (MemberService.add_bulk (repository table) classes (codes "c1") (local ∷ wrong ∷ []) added).1

abbrev last : Phones
last = (MemberService.set_active (repository table) classes (codes "m1") false refused).1

reached : Reaches table classes table-IsPhoneTable [] last
reached =
    then_step refused last
      (then_step added refused (then_step [] added here (adds_one (codes "c1") local))
        (adds_bulk (codes "c1") (local ∷ wrong ∷ [])))
      (sets_active (codes "m1") false)

phones_stay_valid_example : All IsStored last
phones_stay_valid_example = phones_stay_valid table classes table-IsPhoneTable [] last reached tt
