-- ===== src/Classes/Repositories/Tests.antt =====
-- Runs of the repositories over tables in memory.
use taksees.Prelude.{
  ℕ, ◌≡◌, refl, sym, ap, Bool, true, false, ◌&&◌, List, [], ◌∷◌, ◌++◌, map, Option, none, some,
  Text, codes, arith, length, take, drop, keep, includes, ◌===◌, ===_iff, Bool-cases, inl, inr,
  if◌then◌else◌,
}
use taksees.Errors.{Result, ok, throws, error, prisma_known, result-injective}
use taksees.Effects.{Action, pure}
use taksees.Roles.{leader, stored_name}
use taksees.Classes.Entities.{MemberRow, member_of, optional_phone}
use taksees.Classes.Interfaces.{CreateMemberInput, UpdateMemberInput, ClassRepository, null}
use taksees.Classes.Services.MemberInput.{RawMember, create_input}
use taksees.Classes.Services.MemberService
use taksees.Classes.Repositories.Paging.{Offset, pos, neg}
use taksees.Classes.Repositories.Users.{UserTable, exists_many, count_servants}
use taksees.Classes.Repositories.Users.Laws.{IsUserTable, exists_many_set, count_servants_zero}
use taksees.Classes.Repositories.Members.{
  MemberTable, MemberData, MemberChange, data_of, change_of, phone_change, update, set_active,
  repository,
}
use taksees.Classes.Repositories.Members.Laws.{
  IsMemberTable, or_kept, add_one_returns, update_returns, set_active_returns,
}

-- The users `u1` and `u2`, who are leaders.
abbrev ids : List Text
ids = codes "u1" ∷ codes "u2" ∷ []

abbrev user_table : UserTable (Unit {0})
user_table = record {
  count = λ id. pure (length (keep (λ u. u === id) ids));
  find_ids = λ given. pure (keep (includes ids) given);
  count_role = λ given role.
      pure (length (keep (λ id. stored_name leader === role) (keep (includes ids) given)));
  find_role = λ id. pure (if includes ids id then some (stored_name leader) else none);
}

includes-keep :
    (p : Text → Bool) (xs : List Text) (v : Text) → includes (keep p xs) v ≡ (includes xs v && p v)
includes-keep p [] v = refl
includes-keep p (x ∷ xs) v = elim (Bool-cases (x === v)) [
  | inl e ↦ let same : x ≡ v = (===_iff x v).0 e in ground (arith, includes-keep p xs v, ap p same)
  | inr e ↦ ground (arith, includes-keep p xs v)
]

abbrev user_table-IsUserTable : IsUserTable user_table
user_table-IsUserTable = record {
  is_user = includes ids;
  role_at = λ id. stored_name leader;
  found = keep (includes ids);
  find_ids_lem = λ given s. refl;
  includes-found = includes-keep (includes ids);
  count_role_lem = λ given role s. refl;
}

exists_many_set_test :
    (known : List Text) × (exists_many user_table (codes "u1" ∷ codes "x" ∷ []) tt ≡ (ok known, tt))
    × ((v : Text) → includes known v ≡ (includes (codes "u1" ∷ codes "x" ∷ []) v && includes ids v))
exists_many_set_test =
    exists_many_set user_table user_table-IsUserTable (codes "u1" ∷ codes "x" ∷ []) tt

no_servants_counted_test : count_servants user_table ids tt ≡ (ok 0, tt)
no_servants_counted_test =
    count_servants_zero user_table user_table-IsUserTable ids tt (λ id. (leader, refl))

-- A table of members that holds one row at a time, the last one written.
abbrev row_of : MemberData → MemberRow
row_of columns = record {
  id = codes "m1";
  class_id = columns.class_id;
  user_id = columns.user_id;
  full_name = columns.full_name;
  phone = columns.phone;
  is_active = true;
  created_at = 0;
  updated_at = 0;
}

abbrev changed : MemberChange → MemberRow → MemberRow
changed change old = record old {
  full_name = or_kept change.full_name old.full_name;
  phone = or_kept change.phone old.phone;
  is_active = or_kept change.is_active old.is_active;
}

abbrev Rows : Type 0
Rows = List MemberRow

abbrev head : Rows → Option MemberRow
head [] = none
head (row ∷ rows) = some row

abbrev update_head : MemberChange → Rows → Result MemberRow × Rows
update_head change [] = (throws (prisma_known (codes "P2025")), [])
update_head change (row ∷ rows) = (ok (changed change row), changed change row ∷ rows)

abbrev part : Offset → ℕ → Rows → Rows
part (pos k) n rows = take n (drop k rows)
part (neg k) n rows = []

abbrev member_table : MemberTable Rows
member_table = record {
  find_unique = λ id s. (ok (head s), s);
  find_many_and_count = λ w order k n s. (ok (part k n s, length s), s);
  create = λ columns s. (ok (row_of columns), row_of columns ∷ s);
  create_many = λ columns s. (ok (length columns), map row_of columns ++ s);
  update = λ id change. update_head change;
}

head-update :
    (change : MemberChange) (s t : Rows) (old row : MemberRow)
    → head s ≡ some old
    → update_head change s ≡ (ok row, t)
    → changed change old ≡ row
head-update change [] t old row h e = cc
head-update change (r ∷ s) t old row h e = cc (h, e)

abbrev member_table-IsMemberTable : IsMemberTable member_table
member_table-IsMemberTable = record {
  row_at = λ s id. head s;
  create_lem = λ columns s t row e.
      let same : row_of columns ≡ row = result-injective (ap (λ o. o.0) e) in
      (
        ap (λ r. r.class_id) (sym same),
        ap (λ r. r.full_name) (sym same),
        ap (λ r. r.phone) (sym same),
        ap (λ r. r.user_id) (sym same),
      );
  update_lem = λ id change s t old row h e.
      let same : changed change old ≡ row = head-update change s t old row h e in
      (
        ap (λ r. r.full_name) (sym same),
        ap (λ r. r.phone) (sym same),
        ap (λ r. r.is_active) (sym same),
        ap (λ r. r.id) (sym same),
        ap (λ r. r.class_id) (sym same),
        ap (λ r. r.user_id) (sym same),
        ap (λ r. r.created_at) (sym same),
      );
}

abbrev unsupported : {A : Type 0} → Action Rows A
unsupported s = (throws (error (codes "unsupported")), s)

abbrev classes : ClassRepository Rows
classes = record {
  find_by_id = λ id. unsupported;
  find_by_leader_id = λ id. unsupported;
  list = λ filter page. unsupported;
  create = λ input. unsupported;
  update = λ id input. unsupported;
  delete = λ id. unsupported;
  exists = λ id. pure true;
}

abbrev raw : RawMember
raw = record { full_name = codes "Mina"; phone = none; user_id = none }

abbrev input : CreateMemberInput
input = record { class_id = codes "c1"; full_name = codes "Mina"; phone = none; user_id = none }

abbrev mina : MemberRow
mina =
    row_of
      (record { class_id = codes "c1"; full_name = codes "Mina"; phone = none; user_id = none })

input_test : create_input (codes "c1") raw ≡ ok input
unfolding create_input optional_phone
input_test = refl

written_test : member_table.create (data_of input) [] ≡ (ok mina, mina ∷ [])
unfolding data_of
written_test = refl

add_one_returns_example :
    (MemberService.add_one (repository member_table) classes (codes "c1") raw []
      ≡ (ok (member_of mina none), mina ∷ []))
    × (mina.class_id ≡ codes "c1")
    × (mina.full_name ≡ codes "Mina")
    × (mina.user_id ≡ none)
add_one_returns_example =
    add_one_returns member_table member_table-IsMemberTable classes (codes "c1") raw input mina []
      [] (mina ∷ []) refl input_test written_test

abbrev change : UpdateMemberInput
change = record { full_name = some (codes "Mark"); phone = null; is_active = none }

abbrev mark : MemberRow
mark = record mina { full_name = codes "Mark" }

updated_test :
    member_table.update (codes "m1") (change_of change) (mina ∷ []) ≡ (ok mark, mark ∷ [])
unfolding change_of phone_change
updated_test = refl

change_returns_test :
    (update member_table (codes "m1") change (mina ∷ []) ≡ (ok (member_of mark none), mark ∷ []))
    × (mark.full_name ≡ codes "Mark")
    × (mark.is_active ≡ true)
    × (mark.class_id ≡ codes "c1")
    × (mark.user_id ≡ none)
change_returns_test =
    update_returns member_table member_table-IsMemberTable (codes "m1") change (mina ∷ [])
      (mark ∷ []) mina mark none refl refl tt tt updated_test

abbrev inactive : MemberRow
inactive = record mina { is_active = false }

set_active_returns_test :
    (set_active member_table (codes "m1") false (mina ∷ [])
      ≡ (ok (member_of inactive none), inactive ∷ []))
    × (inactive.is_active ≡ false)
    × (inactive.full_name ≡ codes "Mina")
    × (inactive.class_id ≡ codes "c1")
    × (inactive.user_id ≡ none)
set_active_returns_test =
    set_active_returns member_table member_table-IsMemberTable (codes "m1") false (mina ∷ [])
      (inactive ∷ []) mina inactive none refl refl tt refl
