-- ===== src/Classes/Services/ServantService/Tests.antt =====
-- Runs of the servant assignment over repositories in memory.
use taksees.Prelude.{
  ◌+◌, ◌≡◌, refl, sym, ap, Bool, true, false, not, ◌&&◌, ◌||◌, List, [], ◌∷◌, Text, codes, arith,
  length, keep, includes, ◌===◌, ===_iff, Bool-cases, inl, inr,
}
use taksees.Errors.{ok, throws, Exception, domain, error, prisma_known, servant_must_be_a_user}
use taksees.Effects.{Action, pure}
use taksees.Classes.Interfaces.{ClassRepository, ServantClassRepository, UserDirectory}
use taksees.Classes.Services.MemberService.{check_class}
use taksees.Classes.Services.ServantService.{
  AssignResult, is_duplicate, missing_users, check_missing, existing_flags, try_assign, on_rejected,
  assign_loop, assign, unassign_if, unassign,
}
use taksees.Classes.Services.ServantService.Counts.{assign_counts, assign_unknown_user}
use taksees.Classes.Services.ServantService.Effect.{
  IsMapping, IsFixed, assign_effect, assign_again, unassign_effect,
}

-- The pairs of the table.
abbrev Table : Type 0
Table = Text → Text → Bool

abbrev empty_table : Table
empty_table user class = false

abbrev unsupported : {A : Type 0} → Action Table A
unsupported s = (throws (error (codes "unsupported")), s)

abbrev insert : Text → Text → Table → Table
insert user class s v d = s v d || (user === v && class === d)

abbrev remove : Text → Text → Table → Table
remove user class s v d = s v d && not (user === v && class === d)

abbrev insert_if_new : Bool → Text → Text → Action Table (Unit {0})
insert_if_new true user class s = (throws (prisma_known (codes "P2002")), s)
insert_if_new false user class s = (ok tt, insert user class s)

abbrev mapping : ServantClassRepository Table
mapping = record {
  is_assigned = λ user class s. (ok (s user class), s);
  assign = λ user class s. insert_if_new (s user class) user class s;
  unassign = λ user class s. (ok tt, remove user class s);
  list_by_class = λ class. unsupported;
  list_by_user = λ user. unsupported;
}

abbrev class_id : Text
class_id = codes "c1"

abbrev is_class : Text → Bool
is_class id = id === class_id

abbrev is_user : Text → Bool
is_user id = id === codes "u1" || id === codes "u2"

abbrev classes : ClassRepository Table
classes = record {
  find_by_id = λ id. unsupported;
  find_by_leader_id = λ id. unsupported;
  list = λ filter page. unsupported;
  create = λ input. unsupported;
  update = λ id input. unsupported;
  delete = λ id. unsupported;
  exists = λ id. pure (is_class id);
}

abbrev users : UserDirectory Table
users = record {
  exists = λ id. pure (is_user id);
  exists_many = λ ids. pure (keep is_user ids);
  count_servants = λ ids. unsupported;
}

insert_if_new-ok :
    (b : Bool) (user class : Text) (s t : Table)
    → insert_if_new b user class s ≡ (ok tt, t)
    → (v d : Text) → t v d ≡ (s v d || (user === v && class === d))
insert_if_new-ok true user class s t h v d = cc
insert_if_new-ok false user class s t h v d = ap (λ o. o.1 v d) (sym h)

insert_if_new-throws :
    (b : Bool) (user class : Text) (s t : Table) (e : Exception)
    → insert_if_new b user class s ≡ (throws e, t)
    → (t ≡ s) × (b ≡ true)
insert_if_new-throws true user class s t e h = (cc h, refl)
insert_if_new-throws false user class s t e h = cc

includes-keep :
    (p : Text → Bool) (ids : List Text) (v : Text)
    → includes (keep p ids) v ≡ (includes ids v && p v)
includes-keep p [] v = refl
includes-keep p (id ∷ ids) v = elim (Bool-cases (id === v)) [
  | inl e ↦
      let same : id ≡ v = (===_iff id v).0 e in ground (arith, includes-keep p ids v, ap p same)
  | inr e ↦ ground (arith, includes-keep p ids v)
]

abbrev mapping-IsMapping : IsMapping mapping
mapping-IsMapping = record {
  row = λ s user class. s user class;
  is_assigned_lem = λ user class s. refl;
  row-assign = λ user class s t h v d. insert_if_new-ok (s user class) user class s t h v d;
  assign-throws = λ user class s t e h. (insert_if_new-throws (s user class) user class s t e h).0;
  assign-duplicate =
      λ user class s t e h dup. (insert_if_new-throws (s user class) user class s t e h).1;
  row-unassign = λ user class s t h v d. ap (λ o. o.1 v d) (sym h);
}

abbrev lookups-IsFixed : IsFixed classes users
lookups-IsFixed = record {
  is_class = is_class;
  is_user = is_user;
  exists_lem = λ id s. refl;
  known = keep is_user;
  includes-known = λ ids v. includes-keep is_user ids v;
  exists_many_lem = λ ids s. refl;
}

abbrev given : List Text
given = codes "u1" ∷ codes "u2" ∷ codes "u1" ∷ []

abbrev before : Table
before = insert (codes "u2") class_id empty_table

abbrev after : Table
after = insert (codes "u1") class_id before

-- The second `u1` is a duplicate that only the `catch` of the loop sees.
abbrev counted : AssignResult
counted = record { assigned = 1; already_assigned = 2 }

assign_test : assign classes mapping users class_id given before ≡ (ok counted, after)
unfolding assign check_class check_missing missing_users existing_flags assign_loop try_assign
    on_rejected is_duplicate ◌===◌
assign_test = refl

counts_test : counted.assigned + counted.already_assigned ≡ length given
counts_test = assign_counts classes mapping users class_id given before after counted assign_test

unknown_user_test :
    assign classes mapping users class_id (codes "u1" ∷ codes "x" ∷ codes "y" ∷ []) before
    ≡ (throws (domain (servant_must_be_a_user (codes "x"))), before)
unfolding ◌===◌
unknown_user_test =
    assign_unknown_user classes mapping users class_id (codes "u1" ∷ []) (codes "x")
      (codes "y" ∷ []) (codes "u1" ∷ []) before before before refl refl refl refl

assign_effect_example :
    after (codes "u1") class_id
    ≡ (before (codes "u1") class_id || (includes given (codes "u1") && class_id === class_id))
assign_effect_example =
    assign_effect classes mapping users mapping-IsMapping lookups-IsFixed class_id given before
      after counted assign_test (codes "u1") class_id

assign_again_example :
    assign classes mapping users class_id given after
    ≡ (ok (record { assigned = 0; already_assigned = 3 }), after)
assign_again_example =
    assign_again classes mapping users mapping-IsMapping lookups-IsFixed class_id given before after
      counted assign_test

unassign_test :
    unassign classes mapping users class_id (codes "u2") after
    ≡ (ok tt, remove (codes "u2") class_id after)
unfolding unassign unassign_if check_class ◌===◌
unassign_test = refl

unassign_effect_example :
    remove (codes "u2") class_id after (codes "u1") class_id
    ≡ (after (codes "u1") class_id && not (codes "u2" === codes "u1" && class_id === class_id))
unassign_effect_example =
    unassign_effect classes mapping users mapping-IsMapping lookups-IsFixed class_id (codes "u2")
      after (remove (codes "u2") class_id after) unassign_test (codes "u1") class_id
