-- ===== src/Seed.antt =====
-- prisma/seed.ts: the calls that the script makes, in their order. The clients of the database and
-- of Better Auth are a parameter; what the script draws at random and reads of its environment are
-- arguments; what it prints is left out, and the sign-ups of `Promise.all` run in order.
pub mod Calls
pub mod Password
pub mod Members
pub mod Laws
pub mod Causes
mod Tests
use taksees.Prelude.{
  ℕ, zero, suc, Bool, true, false, not, ◌&&◌, ◌||◌, List, [], ◌∷◌, ◌++◌, Option, none, some, Text,
  codes, if◌then◌else◌, is_empty, includes_unit, includes_text, to_string,
}
use taksees.Errors.{Result, ok, throws, Exception, error}
use taksees.Errors
use taksees.Effects.{Action, then_do, ◌>>=◌, ◌>>◌, or_catch, pure, raise, lift}
use taksees.Roles.{UserRole, super_admin, leader, servant, member, stored_name}
use taksees.Classes.Level.{primary_1, primary_2, secondary}
use taksees.Seed.Calls.{
  servant_classes, members, classes, sessions, accounts, verifications, users, SeedUser, UserRow,
  NewUser, NewAccount, NewClass, Assignment, Client, Env, Drawn, Outside, or_default, password_of,
  email_of, name_of,
}
use taksees.Seed.Password.{hash_password, verify_password}
use taksees.Seed.Members.{MemberRow, Share, batches}

abbrev seed_user : UserRole → UserRow → SeedUser
seed_user role row = record { id = row.id; email = row.email; role = role }

-- `servants[i]!.id`
abbrev pub id_at : List SeedUser → ℕ → Result Text
id_at [] i = throws (error (codes "Cannot read properties of undefined (reading 'id')"))
id_at (user ∷ more) zero = ok user.id
id_at (user ∷ more) (suc i) = id_at more i

-- `assignments.map(…)`
unfoldable pub assignment_rows : List SeedUser → List (ℕ × Text) → Result (List Assignment)
assignment_rows servants [] = ok []
assignment_rows servants ((i, class_id) ∷ more) = Errors.◌>>=◌ (id_at servants i) λ servant_id.
    Errors.◌>>=◌ (assignment_rows servants more)
      λ rows. ok (record { servant_id = servant_id; class_id = class_id } ∷ rows)

-- `assignments`
abbrev pub assignments : (a b c : Text) → List (ℕ × Text)
assignments a b c = (0, a) ∷ (1, a) ∷ (1, b) ∷ (2, b) ∷ (3, c) ∷ (4, a) ∷ (4, c) ∷ []

-- `classAssignments`
abbrev pub class_assignments : (a b c : Text) → List Share
class_assignments a b c =
    record { class_id = a; count = 20 }
    ∷ record { class_id = b; count = 20 }
    ∷ record { class_id = c; count = 20 }
    ∷ []

-- `msg.includes('disabled') || msg.includes('not found')`
unfoldable pub is_closed : Outside → Exception → Bool
is_closed outside err =
    includes_text (outside.message_of err) (codes "disabled")
    || includes_text (outside.message_of err) (codes "not found")

-- The condition of the check at the end.
unfoldable pub is_broken : Outside → Env → Option Text → Bool
is_broken outside env none = false
is_broken outside env (some stored) =
    not (is_empty stored)
    && includes_unit stored b':'
    && not (verify_password outside.scrypt (password_of env) stored)

module _ {S : Type 0} (client : Client S) where
  -- The deletions at the head of `main`.
  unfoldable pub wipe : Action S (Unit {0})
  wipe = do
    client.delete_all servant_classes
    client.delete_all members
    client.delete_all classes
    client.delete_all sessions
    client.delete_all accounts
    client.delete_all verifications
    client.delete_all users

  -- The branches of `signUp` after the call of Better Auth.
  unfoldable pub stamp : UserRole → Text → UserRow → Action S SeedUser
  stamp super_admin email user = do
    updated ← client.update_role email (stored_name super_admin)
    pure (seed_user super_admin updated)
  stamp member email user = pure (seed_user member user)
  stamp leader email user = do
    updated ← client.update_role email (stored_name leader)
    pure (seed_user leader updated)
  stamp servant email user = do
    updated ← client.update_role email (stored_name servant)
    pure (seed_user servant updated)

  module _ (outside : Outside) (env : Env) where
    unfoldable pub sign_up : (email name : Text) → UserRole → Action S SeedUser
    sign_up email name role = do
      user ← client.sign_up_email email (password_of env) name
      stamp role email user

    -- What `createSuperAdminDirectly` does with the user that it looked up.
    unfoldable pub create_unless : Drawn → Option UserRow → Action S SeedUser
    create_unless drawn (some existing) = pure (seed_user super_admin existing)
    create_unless drawn none = do
      user ← client.create_user (record {
        id = drawn.user_id;
        name = name_of env;
        email = email_of env;
        role = stored_name super_admin;
      })
      client.create_account (record {
        id = drawn.account_id;
        account_id = user.id;
        provider_id = codes "credential";
        user_id = user.id;
        password = hash_password outside.scrypt drawn.salt (password_of env);
      })
      pure (seed_user super_admin user)

    unfoldable pub create_super_admin_directly : Drawn → Action S SeedUser
    create_super_admin_directly drawn = do
      existing ← client.find_user (email_of env)
      create_unless drawn existing

    -- The `try` of `main` and its `catch`.
    unfoldable pub create_admin : Drawn → Action S SeedUser
    create_admin drawn s =
        or_catch (sign_up (email_of env) (name_of env) super_admin s)
          λ err. if is_closed outside err then create_super_admin_directly drawn else raise err

    -- The sign-ups of `Promise.all`.
    unfoldable pub sign_up_servants : List ℕ → Action S (List SeedUser)
    sign_up_servants [] = pure []
    sign_up_servants (n ∷ ns) = do
      user ←
          sign_up (codes "servant" ++ (to_string n ++ codes "@taksees.app"))
            (codes "Servant " ++ to_string n) servant
      more ← sign_up_servants ns
      pure (user ∷ more)

    unfoldable pub create_batches : List (List MemberRow) → Action S (Unit {0})
    create_batches [] = pure tt
    create_batches (rows ∷ more) = do client.create_members rows; create_batches more

    -- The check at the end, which is made if the password came from the environment.
    unfoldable pub check_password : SeedUser → Action S (Unit {0})
    check_password admin =
        if is_empty (or_default env.password [])
        then pure tt
        else client.find_password admin.id (codes "credential") >>= λ stored.
            if is_broken outside env stored
            then raise (error (codes "Internal: seeded SUPER_ADMIN password does not verify"))
            else pure tt

    -- `main` from the classes on.
    unfoldable pub create_rows : (a b c : SeedUser) → List SeedUser → Action S (Unit {0})
    create_rows leader_a leader_b leader_c servants = do
      class_a ← client.create_class (record {
        name = codes "Primary 1 — Group A";
        level = primary_1;
        leader_id = leader_a.id;
      })
      class_b ← client.create_class (record {
        name = codes "Primary 2 — Group A";
        level = primary_2;
        leader_id = leader_b.id;
      })
      class_c ← client.create_class (record {
        name = codes "Secondary — Group A";
        level = secondary;
        leader_id = leader_c.id;
      })
      rows ← lift (assignment_rows servants (assignments class_a class_b class_c))
      client.create_assignments rows
      create_batches (batches 0 (class_assignments class_a class_b class_c))

    -- `main` from the leaders on.
    unfoldable pub create_others : Action S (Unit {0})
    create_others = do
      leader_a ← sign_up (codes "leader.primary1@taksees.app") (codes "Lina A.") leader
      leader_b ← sign_up (codes "leader.primary2@taksees.app") (codes "Peter B.") leader
      leader_c ← sign_up (codes "leader.secondary@taksees.app") (codes "Mona C.") leader
      servants ← sign_up_servants (1 ∷ 2 ∷ 3 ∷ 4 ∷ 5 ∷ [])
      create_rows leader_a leader_b leader_c servants

    -- `main()`
    unfoldable pub main : Drawn → Action S (Unit {0})
    main drawn = do wipe; admin ← create_admin drawn; create_others; check_password admin
