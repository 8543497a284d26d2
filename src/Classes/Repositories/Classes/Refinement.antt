-- ===== src/Classes/Repositories/Classes/Refinement.antt =====
-- The service over the repository keeps the promise of Registry.
use taksees.Prelude.{
  ◌≡◌, refl, sym, ap, ◌∙◌, ◌⊎◌, inl, inr, Bool, true, false, List, [], ◌∷◌, Option, none, some,
  Text, codes, is_empty, Bool-cases, Option-cases, is_empty_iff,
}
use taksees.Errors.{Result, ok, throws, domain, leader_must_be_a_user, prisma_known}
use taksees.Classes.Entities.{Class, ClassRow, class_from_prisma}
use taksees.Classes.Interfaces.{CreateClassInput, UpdateClassInput, UserDirectory}
use taksees.Classes.Services.ClassService.{found_or_throw, check_leader, check_new_leader}
use taksees.Classes.Services.ClassService
use taksees.Classes.Repositories.Classes.{
  ClassTable, optional_class, repository, find_by_id, create, update, delete,
}
use taksees.Classes.Repositories.Classes.Registry.{
  Registry, Command, reads, creates, updates, deletes, Reply, the_class, done, Made, Changed,
  Becomes, Same, IsTaken, NamesNoUser, Follows, read, read_missing, created, create_no_user,
  create_taken, updated, update_missing, update_no_user, update_taken, update_no_leader, deleted,
  delete_missing, delete_in_use, FollowsAll, ended, next,
}

-- A call of the client that is refused with this code, and changes nothing.
abbrev pub Refused : {S A : Type 0} → Result A × S → S → Text → Type 0
Refused outcome s code = outcome ≡ (throws (prisma_known code), s)

module _ {S : Type 0} (table : ClassTable S) (is_user has_members : Text → Bool) where
  -- The classes that the rows of a state are.
  abbrev pub registry_of : (S → Text → Option ClassRow) → S → Registry
  registry_of view s id = optional_class (view s id)

  -- What the database and its client document of the table of classes, where `view` finds a row:
  -- a leader is a user, and leads one class only; a row is not deleted while members refer to it.
  pub record IsClassTable (view : S → Text → Option ClassRow) : Type 0 where
    pub find_lem : (id : Text) (s : S) → table.find_unique_id id s ≡ (ok (view s id), s)
    pub create_cases :
        (input : CreateClassInput) (s : S)
        → ((row : ClassRow) × (t : S) × (table.create input s ≡ (ok row, t))
            × Made input (class_from_prisma row)
            × (registry_of view s row.id ≡ none)
            × Becomes
                (registry_of view s)
                (registry_of view t)
                row.id
                (some (class_from_prisma row)))
          ⊎ ((Refused (table.create input s) s (codes "P2002")
                × ((id : Text)
                    → registry_of view s id ≡ none
                    → IsTaken (registry_of view s) id input.leader_id))
              ⊎ (Refused (table.create input s) s (codes "P2003")
                  × (is_user input.leader_id ≡ false)))
    pub update_cases :
        (id : Text) (input : UpdateClassInput) (s : S) (old : Class)
        → registry_of view s id ≡ some old
        → ((row : ClassRow) × (t : S) × (table.update id input s ≡ (ok row, t))
            × Changed input old (class_from_prisma row)
            × Becomes (registry_of view s) (registry_of view t) id (some (class_from_prisma row)))
          ⊎ ((Refused (table.update id input s) s (codes "P2002")
                × ((leader_id : Text) × (input.leader_id ≡ some leader_id)
                    × IsTaken (registry_of view s) id leader_id))
              ⊎ (Refused (table.update id input s) s (codes "P2003")
                  × ((leader_id : Text) × (input.leader_id ≡ some leader_id)
                      × (is_user leader_id ≡ false))))
    pub delete_cases :
        (id : Text) (s : S) (old : Class)
        → registry_of view s id ≡ some old
        → ((t : S) × (table.delete id s ≡ (ok tt, t))
            × (has_members id ≡ false)
            × Becomes (registry_of view s) (registry_of view t) id none)
          ⊎ (Refused (table.delete id s) s (codes "P2003") × (has_members id ≡ true))

  -- The reply of a command that ends, or its error.
  abbrev pub reply : {A : Type 0} → (A → Reply) → Result A × S → Result Reply × S
  reply f (ok a, s) = (ok (f a), s)
  reply f (throws e, s) = (throws e, s)

  module _ (users : UserDirectory S) where
    -- ClassService over the repository, on one command and on several.
    abbrev pub execute : Command → S → Result Reply × S
    execute (reads id) s = reply the_class (ClassService.get_by_id (repository table) users id s)
    execute (creates input) s =
        reply the_class (ClassService.create (repository table) users input s)
    execute (updates id input) s =
        reply the_class (ClassService.update (repository table) users id input s)
    execute (deletes id) s = reply (λ _. done) (ClassService.delete (repository table) users id s)

    abbrev pub execute_all : List Command → S → List (Result Reply) × S
    execute_all [] s = ([], s)
    execute_all (c ∷ cs) s =
        let (r, t) = execute c s in let (rs, u) = execute_all cs t in (r ∷ rs, u)

    module _ (view : S → Text → Option ClassRow) (lawful : IsClassTable view)
        (exists_lem : (id : Text) (s : S) → users.exists id s ≡ (ok (is_user id), s)) where
      -- What `execute` makes of a state, against the promise.
      Keeps : Command → S → Result Reply × S → Type 0
      Keeps c s (r, t) = Follows is_user has_members (registry_of view s) c r (registry_of view t)

      same : (s : S) → Same (registry_of view s) (registry_of view s)
      same s id = refl

      looked_up :
          (id : Text) (s : S)
          → ClassService.get_by_id (repository table) users id s
            ≡ found_or_throw (repository table) users id (registry_of view s id) s
      unfolding ClassService.get_by_id find_by_id
      looked_up id s = rw (lawful.find_lem id s) refl

      read-Keeps : (id : Text) (s : S) → Keeps (reads id) s (execute (reads id) s)
      unfolding Keeps found_or_throw
      read-Keeps id s = elim (Option-cases (registry_of view s id)) [
        | inl none_there ↦ rw (looked_up id s, none_there) (read_missing id none_there (same s))
        | inr (c, there) ↦ rw (looked_up id s, there) (read id c there (same s))
      ]

      create-Keeps :
          (input : CreateClassInput) (s : S) → Keeps (creates input) s (execute (creates input) s)
      unfolding Keeps ClassService.create check_leader create class_from_prisma
      create-Keeps input s = elim (Bool-cases (is_user input.leader_id)) [
        | inr unknown ↦
            rw (exists_lem input.leader_id s, unknown) (create_no_user input unknown (same s))
        | inl known ↦ elim (lawful.create_cases input s) [
          | inl (row, t, made_by, made, fresh, becomes) ↦
              rw (exists_lem input.leader_id s, known, made_by)
                (created input (class_from_prisma row) known made fresh becomes)
          | inr (inl (refused, taken)) ↦
              rw (exists_lem input.leader_id s, known, refused) (create_taken input taken (same s))
          | inr (inr (refused, unknown)) ↦ cc
        ]
      ]

      delete-Keeps : (id : Text) (s : S) → Keeps (deletes id) s (execute (deletes id) s)
      unfolding Keeps ClassService.delete found_or_throw delete
      delete-Keeps id s = elim (Option-cases (registry_of view s id)) [
        | inl none_there ↦ rw (looked_up id s, none_there) (delete_missing id none_there (same s))
        | inr (c, there) ↦ elim (lawful.delete_cases id s c there) [
          | inl (t, deleted_by, unused, becomes) ↦
              rw (looked_up id s, there, deleted_by) (deleted id c there unused becomes)
          | inr (refused, used) ↦
              rw (looked_up id s, there, refused) (delete_in_use id used (same s))
        ]
      ]

      -- The write of `update`, once its checks are passed.
      write-Keeps :
          (id : Text) (input : UpdateClassInput) (s : S) (old : Class)
          → registry_of view s id ≡ some old
          → ((leader_id : Text)
              → input.leader_id ≡ some leader_id
              → is_empty leader_id ≡ false
              → is_user leader_id ≡ true)
          → Keeps (updates id input) s (reply the_class (update table id input s))
      unfolding Keeps update
      write-Keeps id input s old there checked = elim (lawful.update_cases id input s old there) [
        | inl (row, t, updated_by, changed, becomes) ↦
            rw updated_by (updated id input old (class_from_prisma row) there changed becomes)
        | inr (inl (refused, (leader_id, given, taken))) ↦
            rw refused (update_taken id leader_id input given taken (same s))
        | inr (inr (refused, (leader_id, given, unknown))) ↦
            elim (Bool-cases (is_empty leader_id)) [
              | inr named ↦ cc (checked leader_id given named, unknown)
              | inl blank ↦
                  let e : leader_id ≡ [] = (is_empty_iff leader_id).0 blank in
                  rw refused (
                    update_no_leader id input (given ∙ ap some e) (ap is_user (sym e) ∙ unknown)
                      (same s))
            ]
      ]

      check_cases :
          (given : Option Text) (s : S)
          → ((check_new_leader (repository table) users given s ≡ (ok tt, s))
              × ((leader_id : Text)
                  → given ≡ some leader_id
                  → is_empty leader_id ≡ false
                  → is_user leader_id ≡ true))
            ⊎ ((leader_id : Text) × NamesNoUser is_user given leader_id
                × (check_new_leader (repository table) users given s
                    ≡ (throws (domain (leader_must_be_a_user leader_id)), s)))
      unfolding check_new_leader check_leader
      check_cases none s = inl (refl, λ l e named. cc)
      check_cases (some leader_id) s = elim (Bool-cases (is_empty leader_id)) [
        | inl blank ↦ inl (rw blank refl, λ l e named. cc)
        | inr named ↦ elim (Bool-cases (is_user leader_id)) [
          | inl known ↦ inl (rw (named, exists_lem leader_id s, known) refl, λ l e _. cc)
          | inr unknown ↦
              inr (
                leader_id,
                (refl, named, unknown),
                rw (named, exists_lem leader_id s, unknown) refl,
              )
        ]
      ]

      update-Keeps :
          (id : Text) (input : UpdateClassInput) (s : S)
          → Keeps (updates id input) s (execute (updates id input) s)
      unfolding Keeps ClassService.update found_or_throw
      update-Keeps id input s = elim (Option-cases (registry_of view s id)) [
        | inl none_there ↦
            rw (looked_up id s, none_there) (update_missing id input none_there (same s))
        | inr (c, there) ↦ elim (check_cases input.leader_id s) [
          | inl (passes, checked) ↦
              rw (looked_up id s, there, passes) (write-Keeps id input s c there checked)
          | inr (leader_id, bad, refused) ↦
              rw (looked_up id s, there, refused) (update_no_user id leader_id input bad (same s))
        ]
      ]

      execute-Keeps : (c : Command) (s : S) → Keeps c s (execute c s)
      execute-Keeps (reads id) s = read-Keeps id s
      execute-Keeps (creates input) s = create-Keeps input s
      execute-Keeps (updates id input) s = update-Keeps id input s
      execute-Keeps (deletes id) s = delete-Keeps id s

      -- Over a table that behaves as documented, and a directory that finds the users: any sequence
      -- of reads, creations, updates and deletions of classes through the service gives the replies
      -- and errors that a registry of classes by their ids promises, each command on every branch:
      -- a missing class, a leader who is no user or leads another class, and a class with members.
      pub execute_all-FollowsAll :
          (cs : List Command) (s : S)
          → FollowsAll is_user has_members
              (registry_of view s)
              cs
              (execute_all cs s).0
              (registry_of view (execute_all cs s).1)
      unfolding Keeps
      execute_all-FollowsAll [] s = ended
      execute_all-FollowsAll (c ∷ cs) s =
          next (execute-Keeps c s) (execute_all-FollowsAll cs (execute c s).1)
