-- ===== src/Classes/Services/ClassService/Tests.antt =====
-- Runs of the class service over repositories in memory.
use taksees.Prelude.{
  ◌≡◌, refl, true, false, List, [], ◌∷◌, Option, none, some, Text, codes, ◌===◌, if◌then◌else◌,
}
use taksees.Errors.{ok, throws, Exception, domain, error, class_not_found, leader_must_be_a_user}
use taksees.Effects.{Action, pure}
use taksees.Classes.Level.{primary_1}
use taksees.Classes.Entities.{Class}
use taksees.Classes.Interfaces.{CreateClassInput, UpdateClassInput, ClassRepository, UserDirectory}
use taksees.Classes.Services.ClassService.{
  found_or_throw, get_by_id, check_leader, create, check_new_leader, update, delete,
}
use taksees.Classes.Services.ClassService.Laws.{
  create_checks_leader, update_checks_leader, class_refused,
}

-- The names of the classes that were written.
abbrev Table : Type 0
Table = List Text

abbrev unsupported : {A : Type 0} → Action Table A
unsupported s = (throws (error (codes "unsupported")), s)

abbrev led : Text → Text → Class
led name leader_id = record {
  id = codes "c1";
  name = name;
  level = primary_1;
  leader_id = leader_id;
  created_at = 0;
  updated_at = 0;
}

abbrev first : Class
first = led (codes "First") (codes "u1")

abbrev lookup : Text → Option Class
lookup id = if id === codes "c1" then some first else none

abbrev repo : ClassRepository Table
repo = record {
  find_by_id = λ id. pure (lookup id);
  find_by_leader_id = λ id. unsupported;
  list = λ filter page. unsupported;
  create = λ input s. (ok (led input.name input.leader_id), input.name ∷ s);
  update = λ id input s. (ok first, codes "updated" ∷ s);
  delete = λ id. unsupported;
  exists = λ id. unsupported;
}

abbrev users : UserDirectory Table
users = record {
  exists = λ id. pure (id === codes "u1");
  exists_many = λ ids. unsupported;
  count_servants = λ ids. unsupported;
}

abbrev input : CreateClassInput
input = record { name = codes "First"; level = primary_1; leader_id = codes "u1" }

abbrev other_input : CreateClassInput
other_input = record { name = codes "First"; level = primary_1; leader_id = codes "u9" }

abbrev change : UpdateClassInput
change = record { name = none; level = none; leader_id = some (codes "u1") }

create_test : create repo users input [] ≡ (ok first, codes "First" ∷ [])
unfolding create check_leader ◌===◌
create_test = refl

create_checks_leader_test :
    (u : Table) × (users.exists (codes "u1") [] ≡ (ok true, u))
    × (repo.create input u ≡ (ok first, codes "First" ∷ []))
create_checks_leader_test =
    create_checks_leader repo users input [] (codes "First" ∷ []) first create_test

update_test : update repo users (codes "c1") change [] ≡ (ok first, codes "updated" ∷ [])
unfolding update get_by_id found_or_throw check_new_leader check_leader ◌===◌
update_test = refl

leader_checked_test :
    (old : Class) × (u v : Table) × (repo.find_by_id (codes "c1") [] ≡ (ok (some old), u))
    × (users.exists (codes "u1") u ≡ (ok true, v))
    × (repo.update (codes "c1") change v ≡ (ok first, codes "updated" ∷ []))
leader_checked_test =
    update_checks_leader repo users (codes "c1") (codes "u1") change [] (codes "updated" ∷ []) first
      refl refl update_test

no_class_test : repo.find_by_id (codes "c2") [] ≡ (ok none, [])
unfolding ◌===◌
no_class_test = refl

no_leader_test : users.exists (codes "u9") [] ≡ (ok false, [])
unfolding ◌===◌
no_leader_test = refl

class_refused_test :
    let e : Exception = domain (class_not_found (codes "c2")) in
    (get_by_id repo users (codes "c2") [] ≡ (throws e, []))
    × (update repo users (codes "c2") change [] ≡ (throws e, []))
    × (delete repo users (codes "c2") [] ≡ (throws e, []))
    × (create repo users other_input []
        ≡ (throws (domain (leader_must_be_a_user (codes "u9"))), []))
class_refused_test =
    class_refused repo users (codes "c2") change other_input [] [] [] no_class_test no_leader_test
