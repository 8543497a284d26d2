-- ===== src/Roles.antt =====
-- common/types/auth-user.ts, and the places where a stored role string becomes a role:
-- `normaliseRole` of common/guards/roles.guard.ts, `getRole` of
-- modules/classes/repositories/prisma-user-directory.ts, `fromPrisma` of
-- modules/classes/domain/entities/user.entity.ts, and the update hook of auth/auth.ts.
pub mod Laws
mod Tests
use taksees.Prelude.{
  Bool, List, [], ◌∷◌, map, Option, none, some, Text, codes, ◌===◌, if◌then◌else◌, includes,
  to_lower,
}
use taksees.Errors.{Result, ok, throws, http, forbidden}

pub data UserRole : Type 0 where
  super_admin leader servant member : UserRole

-- The string that a value of the TypeScript union is.
abbrev pub role_name : UserRole → Text
role_name super_admin = codes "SUPER_ADMIN"
role_name leader = codes "LEADER"
role_name servant = codes "SERVANT"
role_name member = codes "MEMBER"

-- `USER_ROLES`
abbrev pub user_roles : List UserRole
user_roles = super_admin ∷ leader ∷ servant ∷ member ∷ []

-- `isUserRole(value)` on a string
unfoldable pub is_user_role : Text → Bool
is_user_role value = includes (map role_name user_roles) value

-- The keys of `roles` in the admin plugin's options, which are the strings in the role column.
abbrev pub stored_name : UserRole → Text
stored_name super_admin = codes "super_admin"
stored_name leader = codes "leader"
stored_name servant = codes "servant"
stored_name member = codes "member"

-- `s.toLowerCase()`. Beyond ASCII only U+212A and U+0130 give an ASCII letter, and neither leads
-- to a role name.
abbrev pub lower : Text → Text
lower = map to_lower

-- `raw ?? ''`
abbrev or_empty : Option Text → Text
or_empty none = []
or_empty (some s) = s

-- The ladder of `normaliseRole`, on the lower-case string.
unfoldable pub role_of_lower : Text → UserRole
role_of_lower r =
    if r === codes "super_admin"
    then super_admin
    else if r === codes "leader"
    then leader
    else if r === codes "servant"
    then servant
    else if r === codes "member"
    then member
    else member

-- `normaliseRole(raw)`
unfoldable pub normalise_role : Option Text → UserRole
normalise_role raw = role_of_lower (lower (or_empty raw))

-- `isUserRole(row.role) ? row.role : 'SERVANT'`, the string that the expression gives
unfoldable pub coerce_role : Text → Text
coerce_role role = if is_user_role role then role else role_name servant

-- `databaseHooks.user.update.before`
unfoldable pub before_update : Option Text → Result (Unit {0})
before_update none = ok tt
before_update (some role) =
    if role === codes "super_admin"
    then throws (
        http forbidden (
          codes
            "SUPER_ADMIN role can only be assigned via direct Prisma writes (prisma/seed.ts or scripts/create-super-admin.ts). API-based promotion is disabled for security."))
    else ok tt
