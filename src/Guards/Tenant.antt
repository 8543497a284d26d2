-- ===== src/Guards/Tenant.antt =====
-- common/guards/class-tenant.guard.ts. The two database lookups are parameters, which may fail.
pub mod Laws
use taksees.Prelude.{
  Bool, true, false, [], Option, none, some, Text, codes, trim, ◌===◌, if◌then◌else◌, is_empty,
}
use taksees.Errors.{Result, ok, throws, http, unauthorized, forbidden, ◌>>=◌}
use taksees.Roles.{super_admin, role_name}

-- `req.user`; its role is the string that AuthGuard attached.
pub record AuthUser : Type 0 where
  pub id : Text
  pub role : Text

pub record Request : Type 0 where
  pub user : Option AuthUser
  pub class_header : Option Text
  pub active_class_id : Option Text

-- `request.headers['x-class-id']?.trim()`, absent if that is empty
unfoldable pub class_id_of : Option Text → Option Text
class_id_of none = none
class_id_of (some header) = if is_empty (trim header) then none else some (trim header)

-- `request.activeClassId = classId`
abbrev pub activate : Request → Text → Request
activate req class_id = record req { active_class_id = some class_id }

-- `find_leader id` is the `leaderId` of the class row, `is_servant user class` whether the
-- assignment row is there.
module _ (find_leader : Text → Result (Option Text)) (is_servant : Text → Text → Result Bool) where
  -- The servant mapping, asked last.
  unfoldable pub check_servant : Request → AuthUser → Text → Result Request
  check_servant req user class_id = is_servant user.id class_id >>= λ assigned.
      if assigned
      then ok (activate req class_id)
      else throws (http forbidden (codes "No access to this class context."))

  -- The class row, and whether the user leads the class.
  unfoldable pub check_class : Request → AuthUser → Text → Option Text → Result Request
  check_class req user class_id none = throws (http forbidden (codes "Class not found."))
  check_class req user class_id (some leader_id) =
      if leader_id === user.id then ok (activate req class_id) else check_servant req user class_id

  unfoldable pub check_access : Request → AuthUser → Text → Result Request
  check_access req user class_id =
      if user.role === role_name super_admin
      then ok (activate req class_id)
      else find_leader class_id >>= check_class req user class_id

  unfoldable pub check_header : Request → AuthUser → Option Text → Result Request
  check_header req user none =
      throws (http forbidden (codes "Missing X-Class-Id tenant context header."))
  check_header req user (some class_id) = check_access req user class_id

  -- `canActivate`, with the request that it leaves
  unfoldable pub can_activate : Request → Result Request
  can_activate req = elim req.user [
    | none ↦ throws (http unauthorized (codes "Authentication required."))
    | some user ↦ check_header req user (class_id_of req.class_header)
  ]
