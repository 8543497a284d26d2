-- ===== src/Classes/Repositories/Classes/Registry.antt =====
-- What services/class.service.ts over repositories/prisma-class.repository.ts promises, without
-- tables: a registry of classes by their ids.
use taksees.Prelude.{
  ◌≡◌, ◌≢◌, Bool, true, false, List, [], ◌∷◌, Option, none, some, Text, codes, is_empty,
}
use taksees.Errors.{
  Result, ok, throws, domain, prisma_known, class_not_found, leader_must_be_a_user,
}
use taksees.Classes.Entities.{Class}
use taksees.Classes.Interfaces.{CreateClassInput, UpdateClassInput}

abbrev pub Registry : Type 0
Registry = Text → Option Class

pub data Command : Type 0 where
  reads : (id : Text) → Command
  creates : CreateClassInput → Command
  updates : (id : Text) → UpdateClassInput → Command
  deletes : (id : Text) → Command

pub data Reply : Type 0 where
  the_class : Class → Reply
  done : Reply

-- The class has what the input says, and an id and times of its own.
pub record Made (input : CreateClassInput) (c : Class) : Type 0 where
  pub name_is : c.name ≡ input.name
  pub level_is : c.level ≡ input.level
  pub leader_is : c.leader_id ≡ input.leader_id

-- A field that is given is set, one that is left out is kept.
abbrev pub SetOr : {A : Type 0} → Option A → (old new : A) → Type 0
SetOr none old new = new ≡ old
SetOr (some a) old new = new ≡ a

pub record Changed (input : UpdateClassInput) (old new : Class) : Type 0 where
  pub id_is : new.id ≡ old.id
  pub name_is : SetOr input.name old.name new.name
  pub level_is : SetOr input.level old.level new.level
  pub leader_is : SetOr input.leader_id old.leader_id new.leader_id

-- The second registry is the first with this entry.
pub record Becomes (before after : Registry) (id : Text) (entry : Option Class) : Type 0 where
  pub there : after id ≡ entry
  pub elsewhere : (other : Text) → other ≢ id → after other ≡ before other

abbrev pub Same : Registry → Registry → Type 0
Same before after = (id : Text) → after id ≡ before id

-- Another class has the leader already.
pub record IsTaken (registry : Registry) (id leader_id : Text) : Type 0 where
  pub other : Text
  pub klass : Class
  pub held : registry other ≡ some klass
  pub leads : klass.leader_id ≡ leader_id
  pub differs : other ≢ id

-- A leader that an update names and that is no user.
abbrev pub NamesNoUser : (is_user : Text → Bool) → Option Text → Text → Type 0
NamesNoUser is_user given leader_id =
    (given ≡ some leader_id) × (is_empty leader_id ≡ false) × (is_user leader_id ≡ false)

module _ (is_user : Text → Bool) (has_members : Text → Bool) where
  -- A command, its reply or error, and the registry after it.
  pub data Follows (before : Registry) : Command → Result Reply → Registry → Type 0 where
    read :
        {after : Registry} (id : Text) (c : Class)
        → before id ≡ some c
        → Same before after
        → Follows before (reads id) (ok (the_class c)) after
    read_missing :
        {after : Registry} (id : Text)
        → before id ≡ none
        → Same before after
        → Follows before (reads id) (throws (domain (class_not_found id))) after
    created :
        {after : Registry} (input : CreateClassInput) (c : Class)
        → is_user input.leader_id ≡ true
        → Made input c
        → before c.id ≡ none
        → Becomes before after c.id (some c)
        → Follows before (creates input) (ok (the_class c)) after
    create_no_user :
        {after : Registry} (input : CreateClassInput)
        → is_user input.leader_id ≡ false
        → Same before after
        → Follows before
            (creates input)
            (throws (domain (leader_must_be_a_user input.leader_id)))
            after
    create_taken :
        {after : Registry} (input : CreateClassInput)
        → ((id : Text) → before id ≡ none → IsTaken before id input.leader_id)
        → Same before after
        → Follows before (creates input) (throws (prisma_known (codes "P2002"))) after
    updated :
        {after : Registry} (id : Text) (input : UpdateClassInput) (old new : Class)
        → before id ≡ some old
        → Changed input old new
        → Becomes before after id (some new)
        → Follows before (updates id input) (ok (the_class new)) after
    update_missing :
        {after : Registry} (id : Text) (input : UpdateClassInput)
        → before id ≡ none
        → Same before after
        → Follows before (updates id input) (throws (domain (class_not_found id))) after
    update_no_user :
        {after : Registry} (id leader_id : Text) (input : UpdateClassInput)
        → NamesNoUser is_user input.leader_id leader_id
        → Same before after
        → Follows before
            (updates id input)
            (throws (domain (leader_must_be_a_user leader_id)))
            after
    update_taken :
        {after : Registry} (id leader_id : Text) (input : UpdateClassInput)
        → input.leader_id ≡ some leader_id
        → IsTaken before id leader_id
        → Same before after
        → Follows before (updates id input) (throws (prisma_known (codes "P2002"))) after
    update_no_leader :
        {after : Registry} (id : Text) (input : UpdateClassInput)
        → input.leader_id ≡ some []
        → is_user [] ≡ false
        → Same before after
        → Follows before (updates id input) (throws (prisma_known (codes "P2003"))) after
    deleted :
        {after : Registry} (id : Text) (c : Class)
        → before id ≡ some c
        → has_members id ≡ false
        → Becomes before after id none
        → Follows before (deletes id) (ok done) after
    delete_missing :
        {after : Registry} (id : Text)
        → before id ≡ none
        → Same before after
        → Follows before (deletes id) (throws (domain (class_not_found id))) after
    delete_in_use :
        {after : Registry} (id : Text)
        → has_members id ≡ true
        → Same before after
        → Follows before (deletes id) (throws (prisma_known (codes "P2003"))) after

  -- Commands one after the other, with the reply to each.
  pub data FollowsAll : Registry → List Command → List (Result Reply) → Registry → Type 0 where
    ended : {registry : Registry} → FollowsAll registry [] [] registry
    next :
        {before between after : Registry} {c : Command} {r : Result Reply} {cs : List Command}
        {rs : List (Result Reply)}
        → Follows before c r between
        → FollowsAll between cs rs after
        → FollowsAll before (c ∷ cs) (r ∷ rs) after
