-- ===== src/Seed/Calls.antt =====
-- prisma/seed.ts: what the script reads, draws and calls.
use taksees.Prelude.{ℕ, List, Option, none, some, Text, codes}
use taksees.Errors.{Exception}
use taksees.Effects.{Action}
use taksees.Roles.{UserRole}
use taksees.Classes.Level.{ClassLevel}
use taksees.Seed.Password.{Bytes}
use taksees.Seed.Members.{MemberRow}

pub data Table : Type 0 where
  servant_classes members classes sessions accounts verifications users : Table

pub record SeedUser : Type 0 where
  pub id : Text
  pub email : Text
  pub role : UserRole

-- What the script reads of a user that a call returns.
pub record UserRow : Type 0 where
  pub id : Text
  pub email : Text

-- The data of `user.create` and `account.create`, beside the times and the verified email.
pub record NewUser : Type 0 where
  pub id : Text
  pub name : Text
  pub email : Text
  pub role : Text

pub record NewAccount : Type 0 where
  pub id : Text
  pub account_id : Text
  pub provider_id : Text
  pub user_id : Text
  pub password : Text

pub record NewClass : Type 0 where
  pub name : Text
  pub level : ClassLevel
  pub leader_id : Text

pub record Assignment : Type 0 where
  pub servant_id : Text
  pub class_id : Text

-- `auth.api`, `prisma` and `prismaAuth`: the calls of the script. `create_class` gives the new
-- class's id, `find_password` the password of the account that is found.
pub record Client (S : Type 0) : Type 0 where
  pub delete_all : Table → Action S (Unit {0})
  pub sign_up_email : (email password name : Text) → Action S UserRow
  pub update_role : (email role : Text) → Action S UserRow
  pub find_user : (email : Text) → Action S (Option UserRow)
  pub create_user : NewUser → Action S UserRow
  pub create_account : NewAccount → Action S (Unit {0})
  pub create_class : NewClass → Action S Text
  pub create_assignments : List Assignment → Action S (Unit {0})
  pub create_members : List MemberRow → Action S (Unit {0})
  pub find_password : (user_id provider_id : Text) → Action S (Option Text)

-- `process.env.BOOTSTRAP_SUPER_ADMIN_*`
pub record Env : Type 0 where
  pub password : Option Text
  pub email : Option Text
  pub name : Option Text

-- `a ?? b`
abbrev pub or_default : Option Text → Text → Text
or_default none b = b
or_default (some a) b = a

abbrev pub password_of : Env → Text
password_of env = or_default env.password (codes "Passw0rd!")

abbrev pub email_of : Env → Text
email_of env = or_default env.email (codes "admin@taksees.app")

abbrev pub name_of : Env → Text
name_of env = or_default env.name (codes "System Admin")

-- What the script draws: the salt's bytes and two identifiers.
pub record Drawn : Type 0 where
  pub salt : Bytes
  pub user_id : Text
  pub account_id : Text

-- `scryptSync`, and `err instanceof Error ? err.message : String(err)`
pub record Outside : Type 0 where
  pub scrypt : (password salt : Text) → (size : ℕ) → Bytes
  pub message_of : Exception → Text
