-- ===== src/Classes/Entities.antt =====
-- domain/entities/: a class, a member and a user, rebuilt from database rows. The fields of the
-- row types are the columns of prisma/schema.prisma; a date is its time stamp.
pub mod Laws
use taksees.Prelude.{ℕ, Bool, true, false, Option, none, some, Text, codes, is_empty, if◌then◌else◌}
use taksees.Errors.{Result, ok, throws, ◌>>=◌}
use taksees.Phone.{Phone, parse_default}
use taksees.Roles.{coerce_role}
use taksees.Classes.Level.{ClassLevel}

pub record ClassRow : Type 0 where
  pub id : Text
  pub name : Text
  pub level : ClassLevel
  pub leader_id : Text
  pub created_at : ℕ
  pub updated_at : ℕ

pub record Class : Type 0 where
  pub id : Text
  pub name : Text
  pub level : ClassLevel
  pub leader_id : Text
  pub created_at : ℕ
  pub updated_at : ℕ

-- `Class.fromPrisma`
unfoldable pub class_from_prisma : ClassRow → Class
class_from_prisma row = record {
  id = row.id;
  name = row.name;
  level = row.level;
  leader_id = row.leader_id;
  created_at = row.created_at;
  updated_at = row.updated_at;
}

-- `rename`, `changeLevel`
unfoldable pub rename : Text → Class → Class
rename name c = record c { name = name }

unfoldable pub change_level : ClassLevel → Class → Class
change_level level c = record c { level = level }

pub record MemberRow : Type 0 where
  pub id : Text
  pub class_id : Text
  pub user_id : Option Text
  pub full_name : Text
  pub phone : Option Text
  pub is_active : Bool
  pub created_at : ℕ
  pub updated_at : ℕ

pub record Member : Type 0 where
  pub id : Text
  pub class_id : Text
  pub user_id : Option Text
  pub full_name : Text
  pub phone : Option Phone
  pub is_active : Bool
  pub created_at : ℕ
  pub updated_at : ℕ

-- `raw ? Phone.parse(raw) : null`: a missing text and the empty one are no phone.
unfoldable pub optional_phone : Option Text → Result (Option Phone)
optional_phone none = ok none
optional_phone (some text) =
    if is_empty text then ok none else parse_default text >>= λ p. ok (some p)

-- The constructor call of `Member.fromPrisma`.
abbrev pub member_of : MemberRow → Option Phone → Member
member_of row phone = record {
  id = row.id;
  class_id = row.class_id;
  user_id = row.user_id;
  full_name = row.full_name;
  phone = phone;
  is_active = row.is_active;
  created_at = row.created_at;
  updated_at = row.updated_at;
}

-- `Member.fromPrisma`
unfoldable pub member_from_prisma : MemberRow → Result Member
member_from_prisma row = optional_phone row.phone >>= λ phone. ok (member_of row phone)

unfoldable pub update_contact : Text → Option Phone → Member → Member
update_contact full_name phone m = record m { full_name = full_name; phone = phone }

unfoldable pub deactivate : Member → Member
deactivate m = record m { is_active = false }

unfoldable pub reactivate : Member → Member
reactivate m = record m { is_active = true }

-- `this.phone?.value ?? null`, the column and the field of `toJSON`
abbrev pub phone_value : Option Phone → Option Text
phone_value none = none
phone_value (some p) = some p.value

pub record UserRow : Type 0 where
  pub id : Text
  pub email : Text
  pub name : Text
  pub phone : Option Text
  pub role : Text
  pub created_at : ℕ
  pub updated_at : ℕ

-- `UserEntity`; its role is the string of a role
pub record UserEntity : Type 0 where
  pub id : Text
  pub email : Text
  pub name : Text
  pub phone : Option Text
  pub role : Text
  pub created_at : ℕ
  pub updated_at : ℕ

-- `UserEntity.fromPrisma`
unfoldable pub user_from_prisma : UserRow → UserEntity
user_from_prisma row = record {
  id = row.id;
  email = row.email;
  name = row.name;
  phone = row.phone;
  role = coerce_role row.role;
  created_at = row.created_at;
  updated_at = row.updated_at;
}

-- `rename` and `setPhone` of `UserEntity`
unfoldable pub rename_user : Text → UserEntity → UserEntity
rename_user name user = record user { name = name }

unfoldable pub set_phone : Option Text → UserEntity → UserEntity
set_phone phone user = record user { phone = phone }
