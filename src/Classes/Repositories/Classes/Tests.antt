-- ===== src/Classes/Repositories/Classes/Tests.antt =====
-- The service over a database whose only user is `u1`, and which so holds one class at most, `c1`.
use taksees.Prelude.{
  ◌≡◌, ◌≢◌, refl, sym, subst, ◌⊎◌, inl, inr, Bool, true, false, List, [], ◌∷◌, Option, none, some,
  Text, codes, ◌===◌, ===_iff, ===_self, if◌then◌else◌, Bool-cases,
}
use taksees.Errors.{ok, throws, prisma_known}
use taksees.Effects.{Action}
use taksees.Classes.Level.{ClassLevel, primary_1, college}
use taksees.Classes.Entities.{Class, ClassRow, class_from_prisma}
use taksees.Classes.Interfaces.{CreateClassInput, UpdateClassInput, UserDirectory}
use taksees.Classes.Repositories.Classes.{ClassTable, optional_class}
use taksees.Classes.Repositories.Classes.Registry.{
  Registry, Command, reads, creates, updates, deletes, Made, Changed, Becomes, IsTaken, SetOr,
  FollowsAll,
}
use taksees.Classes.Repositories.Classes.Refinement.{
  Refused, registry_of, IsClassTable, execute_all, execute_all-FollowsAll,
}

abbrev Stored : Type 0
Stored = Option (Text × ClassLevel)

abbrev row_of : Text × ClassLevel → ClassRow
row_of (name, level) = record {
  id = codes "c1";
  name = name;
  level = level;
  leader_id = codes "u1";
  created_at = 0;
  updated_at = 0;
}

abbrev rows_of : Stored → Option ClassRow
rows_of none = none
rows_of (some c) = some (row_of c)

abbrev view : Stored → Text → Option ClassRow
view s id = if id === codes "c1" then rows_of s else none

abbrev is_user : Text → Bool
is_user id = id === codes "u1"

abbrev has_members : Text → Bool
has_members id = false

abbrev refuse : {A : Type 0} → Text → Action Stored A
refuse code s = (throws (prisma_known code), s)

abbrev create_free : CreateClassInput → Action Stored ClassRow
create_free input none = (ok (row_of (input.name, input.level)), some (input.name, input.level))
create_free input (some c) = refuse (codes "P2002") (some c)

abbrev create : CreateClassInput → Action Stored ClassRow
create input s = if is_user input.leader_id then create_free input s else refuse (codes "P2003") s

abbrev or_old : {A : Type 0} → Option A → A → A
or_old none a = a
or_old (some b) a = b

abbrev leader_allowed : Option Text → Bool
leader_allowed none = true
leader_allowed (some id) = is_user id

abbrev changed : UpdateClassInput → Text × ClassLevel → Text × ClassLevel
changed input (name, level) = (or_old input.name name, or_old input.level level)

abbrev update_found : UpdateClassInput → Action Stored ClassRow
update_found input none = refuse (codes "P2025") none
update_found input (some c) =
    if leader_allowed input.leader_id
    then (ok (row_of (changed input c)), some (changed input c))
    else refuse (codes "P2003") (some c)

abbrev table : ClassTable Stored
table = record {
  find_unique_id = λ id s. (ok (view s id), s);
  find_unique_leader = λ id s. (ok none, s);
  find_many_and_count = λ search order offset limit s. (ok ([], 0), s);
  create = create;
  update = λ id input. update_found input;
  delete = λ id s. (ok tt, none);
  count = λ id s. (ok 0, s);
}

abbrev users : UserDirectory Stored
users = record {
  exists = λ id s. (ok (is_user id), s);
  exists_many = λ ids s. (ok ids, s);
  count_servants = λ ids s. (ok 0, s);
}

abbrev at : Stored → Registry
at s = registry_of table is_user has_members view s

only_c1 : (s : Stored) (id : Text) (c : Class) → at s id ≡ some c → id ≡ codes "c1"
unfolding optional_class
only_c1 s id c h = elim (Bool-cases (id === codes "c1")) [
  | inl same ↦ (===_iff id (codes "c1")).0 same
  | inr other ↦ cc (rw other at h)
]

stored-Becomes : (s t : Stored) → Becomes (at s) (at t) (codes "c1") (optional_class (rows_of t))
unfolding optional_class
stored-Becomes s t = record {
  there = rw (===_self (codes "c1")) refl;
  elsewhere = λ other differs. elim (Bool-cases (other === codes "c1")) [
    | inl same ↦ absurd (differs ((===_iff other (codes "c1")).0 same))
    | inr apart ↦ rw apart refl
  ];
}

create_free-cases :
    (input : CreateClassInput) (s : Stored)
    → is_user input.leader_id ≡ true
    → ((row : ClassRow) × (t : Stored) × (create_free input s ≡ (ok row, t))
        × Made input (class_from_prisma row)
        × (at s row.id ≡ none)
        × Becomes (at s) (at t) row.id (some (class_from_prisma row)))
      ⊎ (Refused (create_free input s) s (codes "P2002")
          × ((id : Text) → at s id ≡ none → IsTaken (at s) id input.leader_id))
unfolding class_from_prisma optional_class
create_free-cases input none known = inl (
  _,
  _,
  refl,
  record {
    name_is = refl;
    level_is = refl;
    leader_is = sym ((===_iff input.leader_id (codes "u1")).0 known);
  },
  rw (===_self (codes "c1")) refl,
  stored-Becomes none (some (input.name, input.level)),
)
create_free-cases input (some c) known = inr (
  refl,
  λ id free. record {
    other = codes "c1";
    klass = class_from_prisma (row_of c);
    held = rw (===_self (codes "c1")) refl;
    leads = sym ((===_iff input.leader_id (codes "u1")).0 known);
    differs = λ same. cc (rw (===_self (codes "c1")) at (rw (← same) at free));
  },
)

never_found : (id : Text) (c : Class) → at none id ≢ some c
unfolding optional_class
never_found id c h = elim (Bool-cases (id === codes "c1")) [
  | inl same ↦ cc (rw same at h)
  | inr other ↦ cc (rw other at h)
]

old_is :
    (c : Text × ClassLevel) (old : Class)
    → at (some c) (codes "c1") ≡ some old
    → class_from_prisma (row_of c) ≡ old
unfolding optional_class
old_is c old h = let e = rw (===_self (codes "c1")) at h in cc

or_old-SetOr : {A : Type 0} (o : Option A) (a : A) → SetOr o a (or_old o a)
or_old-SetOr none a = refl
or_old-SetOr (some b) a = refl

allowed-SetOr : (o : Option Text) → leader_allowed o ≡ true → SetOr o (codes "u1") (codes "u1")
allowed-SetOr none h = refl
allowed-SetOr (some id) h = sym ((===_iff id (codes "u1")).0 h)

changed-Changed :
    (input : UpdateClassInput) (c : Text × ClassLevel)
    → leader_allowed input.leader_id ≡ true
    → Changed input (class_from_prisma (row_of c)) (class_from_prisma (row_of (changed input c)))
unfolding class_from_prisma
changed-Changed input c allowed = record {
  id_is = refl;
  name_is = or_old-SetOr input.name c.0;
  level_is = or_old-SetOr input.level c.1;
  leader_is = allowed-SetOr input.leader_id allowed;
}

refused_leader :
    (o : Option Text)
    → leader_allowed o ≡ false
    → (id : Text) × (o ≡ some id) × (is_user id ≡ false)
refused_leader none h = cc
refused_leader (some id) h = (id, refl, h)

table-IsClassTable : IsClassTable table is_user has_members view
unfolding optional_class
table-IsClassTable = record {
  find_lem = λ id s. refl;
  create_cases = λ input s. elim (Bool-cases (is_user input.leader_id)) [
    | inl known ↦ elim (create_free-cases input s known) [
      | inl (row, t, e, made, free, becomes) ↦ inl (row, t, rw known e, made, free, becomes)
      | inr (e, taken) ↦ inr (inl (rw known e, taken))
    ]
    | inr unknown ↦ inr (inr (rw unknown refl, unknown))
  ];
  update_cases = update_cases;
  delete_cases = λ id s old h. inl (
    none,
    refl,
    refl,
    subst (λ i. Becomes (at s) (at none) i none) (sym (only_c1 s id old h)) (stored-Becomes s none),
  );
}
  where
    update_cases :
        (id : Text) (input : UpdateClassInput) (s : Stored) (old : Class)
        → at s id ≡ some old
        → ((row : ClassRow) × (t : Stored) × (update_found input s ≡ (ok row, t))
            × Changed input old (class_from_prisma row)
            × Becomes (at s) (at t) id (some (class_from_prisma row)))
          ⊎ ((Refused (update_found input s) s (codes "P2002")
                × ((leader_id : Text) × (input.leader_id ≡ some leader_id)
                    × IsTaken (at s) id leader_id))
              ⊎ (Refused (update_found input s) s (codes "P2003")
                  × ((leader_id : Text) × (input.leader_id ≡ some leader_id)
                      × (is_user leader_id ≡ false))))
    update_cases id input none old h = absurd (never_found id old h)
    update_cases id input (some c) old h =
        let is_c1 = only_c1 (some c) id old h in
        let is_old = old_is c old (rw is_c1 at h) in
        elim (Bool-cases (leader_allowed input.leader_id)) [
          | inl allowed ↦ inl (
            row_of (changed input c),
            some (changed input c),
            rw allowed refl,
            subst (λ o. Changed input o (class_from_prisma (row_of (changed input c)))) is_old
                (changed-Changed input c allowed),
            subst
                (λ i.
                  Becomes (at (some c)) (at (some (changed input c))) i
                    (some (class_from_prisma (row_of (changed input c)))))
                (sym is_c1) (stored-Becomes (some c) (some (changed input c))),
          )
          | inr refused ↦ inr (inr (rw refused refl, refused_leader input.leader_id refused))
        ]

abbrev commands : List Command
commands =
    creates (record { name = codes "First"; level = primary_1; leader_id = codes "u1" })
    ∷ creates (record { name = codes "Second"; level = college; leader_id = codes "u1" })
    ∷ creates (record { name = codes "Third"; level = college; leader_id = codes "u9" })
    ∷ updates (codes "c1")
        (record { name = some (codes "Renamed"); level = none; leader_id = none })
    ∷ reads (codes "c1")
    ∷ deletes (codes "c1")
    ∷ reads (codes "c1")
    ∷ []

execute_all-FollowsAll_example :
    FollowsAll is_user has_members
      (at none)
      commands
      (execute_all table is_user has_members users commands none).0
      (at (execute_all table is_user has_members users commands none).1)
execute_all-FollowsAll_example =
    execute_all-FollowsAll table is_user has_members users view table-IsClassTable (λ id s. refl)
      commands none
