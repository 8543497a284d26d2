-- ===== src/Classes/Repositories/Servants/Tests.antt =====
-- The servant assignment over a table in memory.
use taksees.Prelude.{
  ℕ, ◌+◌, ◌≤◌, ◌≡◌, refl, sym, ap, Bool, true, false, ◌&&◌, ◌||◌, List, [], ◌∷◌, Text, codes, arith,
  includes, ltb, ◌===◌, if◌then◌else◌,
}
use taksees.Errors.{ok, throws, Exception, error, prisma_known}
use taksees.Effects.{Action, pure}
use taksees.Classes.Interfaces.{ClassRepository, UserDirectory}
use taksees.Classes.Services.MemberService.{check_class}
use taksees.Classes.Services.ServantService.{
  AssignResult, is_duplicate, missing_users, check_missing, existing_flags, try_assign, on_rejected,
  count, assign_loop,
}
use taksees.Classes.Services.ServantService
use taksees.Classes.Services.ServantService.Effect.{IsFixed}
use taksees.Classes.Repositories.Servants.{ServantClassTable, is_assigned, assign, repository}
use taksees.Classes.Repositories.Servants.Laws.{same_pair, IsTable, assign_rows}

-- The number of rows of each pair.
abbrev Rows : Type 0
Rows = Text → Text → ℕ

abbrev insert : Text → Text → Rows → Rows
insert servant class s v d = s v d + (if same_pair servant class v d then 1 else 0)

abbrev remove : Text → Text → Rows → Rows
remove servant class s v d = if same_pair servant class v d then 0 else s v d

abbrev create_row : Bool → Text → Text → Action Rows (Unit {0})
create_row true servant class s = (throws (prisma_known (codes "P2002")), s)
create_row false servant class s = (ok tt, insert servant class s)

abbrev table : ServantClassTable Rows
table = record {
  count = λ servant class s. (ok (s servant class), s);
  create = λ servant class s. create_row (ltb 0 (s servant class)) servant class s;
  delete = λ servant class s. (ok tt, remove servant class s);
  find_by_class = λ class. pure [];
  find_by_servant = λ servant. pure [];
}

create_row-ok :
    (b : Bool) (servant class : Text) (s t : Rows)
    → create_row b servant class s ≡ (ok tt, t)
    → (v d : Text) → t v d ≡ insert servant class s v d
create_row-ok true servant class s t h v d = cc
create_row-ok false servant class s t h v d = ap (λ o. o.1 v d) (sym h)

create_row-throws :
    (b : Bool) (servant class : Text) (s t : Rows) (e : Exception)
    → create_row b servant class s ≡ (throws e, t)
    → (t ≡ s) × (b ≡ true)
create_row-throws true servant class s t e h = (cc h, refl)
create_row-throws false servant class s t e h = cc

positive : (n : ℕ) → ltb 0 n ≡ true → 1 ≤ n
positive n h = ground (arith, h)

abbrev table-IsTable : IsTable table
table-IsTable = record {
  number = λ s servant class. s servant class;
  count_lem = λ servant class s. refl;
  number-create =
      λ servant class s t h v d. create_row-ok (ltb 0 (s servant class)) servant class s t h v d;
  create-throws = λ servant class s t e h.
      (create_row-throws (ltb 0 (s servant class)) servant class s t e h).0;
  create-P2002 = λ servant class s t code h is_p2002.
      positive (s servant class)
        (create_row-throws (ltb 0 (s servant class)) servant class s t _ h).1;
  number-delete = λ servant class s t h v d. ap (λ o. o.1 v d) (sym h);
}

abbrev unsupported : {A : Type 0} → Action Rows A
unsupported s = (throws (error (codes "unsupported")), s)

abbrev classes : ClassRepository Rows
classes = record {
  find_by_id = λ id. unsupported;
  find_by_leader_id = λ id. unsupported;
  list = λ filter page. unsupported;
  create = λ input. unsupported;
  update = λ id input. unsupported;
  delete = λ id. unsupported;
  exists = λ id. pure true;
}

abbrev users : UserDirectory Rows
users = record {
  exists = λ id. pure true;
  exists_many = λ ids. pure ids;
  count_servants = λ ids. unsupported;
}

includes-true : (ids : List Text) (v : Text) → includes ids v ≡ (includes ids v && true)
includes-true ids v = ground arith

abbrev lookups-IsFixed : IsFixed classes users
lookups-IsFixed = record {
  is_class = λ id. true;
  is_user = λ id. true;
  known = λ ids. ids;
  exists_lem = λ id s. refl;
  includes-known = includes-true;
  exists_many_lem = λ ids s. refl;
}

abbrev given : List Text
given = codes "u1" ∷ codes "u2" ∷ codes "u1" ∷ []

abbrev before : Rows
before = insert (codes "u2") (codes "c1") (λ v d. 0)

abbrev after : Rows
after = insert (codes "u1") (codes "c1") before

abbrev counted : AssignResult
counted = record { assigned = 1; already_assigned = 2 }

assign_test :
    ServantService.assign classes (repository table) users (codes "c1") given before
    ≡ (ok counted, after)
unfolding ServantService.assign check_class check_missing missing_users existing_flags assign_loop
    try_assign on_rejected is_duplicate is_assigned assign ◌===◌
assign_test = refl

assign_rows_example : ltb 0 (after (codes "u1") (codes "c1")) ≡ (
    ltb 0 (before (codes "u1") (codes "c1"))
    || (includes given (codes "u1") && codes "c1" === codes "c1"))
assign_rows_example =
    assign_rows table table-IsTable classes users lookups-IsFixed (codes "c1") given before after
      counted assign_test (codes "u1") (codes "c1")
