-- ===== src/Classes/Controllers.antt =====
-- controllers/: each handler with its guards, the pipes on its arguments, and its service call. The
-- pipe `ParseUUIDPipe` and the validation of a body or a query against its schema are parameters.
pub mod Laws
pub mod Access
pub mod Tests
use taksees.Prelude.{
  ℕ, zero, Bool, true, false, List, [], ◌∷◌, Option, none, some, Text, if◌then◌else◌,
}
use taksees.Errors.{Result, ok, throws}
use taksees.Effects.{Action, then_do, ◌>>=◌, ◌>>◌, pure, lift}
use taksees.Roles.{UserRole, super_admin, leader, servant}
use taksees.Guards.Roles.{RawUser, Headers}
use taksees.Guards.Roles
use taksees.Guards.Tenant.{AuthUser}
use taksees.Guards.Tenant
use taksees.Classes.Level.{ClassLevel}
use taksees.Classes.Entities.{Class, Member}
use taksees.Classes.Interfaces.{
  CreateClassInput, UpdateClassInput, ListClassesFilter, ListMembersFilter, PageInfo, Paginated,
  ClassRepository, MemberRepository, ServantClassRepository, UserDirectory,
}
use taksees.Classes.Services.MemberInput.{RawMember, RawUpdate}
use taksees.Classes.Services.ClassService
use taksees.Classes.Services.MemberService.{BulkAddResult}
use taksees.Classes.Services.MemberService
use taksees.Classes.Services.ServantService.{AssignResult}
use taksees.Classes.Services.ServantService

-- What the guards read of a request.
pub record Request : Type 0 where
  pub user : Option RawUser
  pub headers : Headers
  pub class_header : Option Text

-- `request.user` as ClassTenantGuard reads it, `user.role` absent being the empty text
abbrev pub role_or_empty : Option Text → Text
role_or_empty none = []
role_or_empty (some role) = role

abbrev pub auth_user : Option RawUser → Option AuthUser
auth_user none = none
auth_user (some u) = some (record { id = u.id; role = role_or_empty u.role })

-- A body of `POST classes/:classId/members`: one member, or several under `members`.
pub data AddBody : Type 0 where
  single : RawMember → AddBody
  members : List RawMember → AddBody

-- A query of a list: the filter, the page and the limit.
pub record Query (F : Type 0) : Type 0 where
  pub filter : F
  pub page : ℕ
  pub limit : ℕ

abbrev page_info : {F : Type 0} → Query F → PageInfo
page_info q = record { page = q.page; limit = q.limit; total = 0 }

-- What the guards and the pipes call outside the program, and the lookups of ClassTenantGuard in
-- the database's state.
pub record Outside (S : Type 0) : Type 0 where
  pub get_session : List (Text × Text) → Result (Option RawUser)
  pub parse_uuid : Text → Result Text
  pub find_leader : S → Text → Result (Option Text)
  pub is_servant : S → Text → Text → Result Bool

module _ {S : Type 0} (outside : Outside S) where
  -- RolesGuard, with the roles that `@Roles` names.
  unfoldable pub roles_guard : List UserRole → Request → Action S Bool
  roles_guard required req = lift (
      Roles.can_activate outside.get_session (some required)
        (record { user = req.user; headers = req.headers }))

  -- ClassTenantGuard.
  unfoldable pub tenant_guard : Request → Action S Tenant.Request
  tenant_guard req s = (
    Tenant.can_activate (outside.find_leader s) (outside.is_servant s) (record {
      user = auth_user req.user;
      class_header = req.class_header;
      active_class_id = none;
    }),
    s,
  )

  -- `@UseGuards(RolesGuard, ClassTenantGuard)`
  unfoldable pub both_guards : List UserRole → Request → Action S Tenant.Request
  both_guards required req = do roles_guard required req; tenant_guard req

  module _ (repo : ClassRepository S) (users : UserDirectory S) where
    -- ClassesController
    unfoldable pub list_classes : Result (Query ListClassesFilter) → Action S (Paginated Class)
    list_classes query = do q ← lift query; ClassService.list repo users q.filter (page_info q)

    unfoldable pub create_class : Request → Result CreateClassInput → Action S Class
    create_class req body = do
      roles_guard (super_admin ∷ []) req
      input ← lift body
      ClassService.create repo users input

    unfoldable pub get_class : Text → Action S Class
    get_class path_id = do
      id ← lift (outside.parse_uuid path_id)
      ClassService.get_by_id repo users id

    unfoldable pub update_class : Request → Text → Result UpdateClassInput → Action S Class
    update_class req path_id body = do
      both_guards (super_admin ∷ leader ∷ []) req
      id ← lift (outside.parse_uuid path_id)
      input ← lift body
      ClassService.update repo users id input

    unfoldable pub remove_class : Request → Text → Action S (Unit {0})
    remove_class req path_id = do
      roles_guard (super_admin ∷ []) req
      id ← lift (outside.parse_uuid path_id)
      ClassService.delete repo users id

  module _ (member_repo : MemberRepository S) (classes : ClassRepository S) where
    -- MembersController
    unfoldable pub list_members :
        Request → Text → Result (Query ListMembersFilter) → Action S (Paginated Member)
    list_members req path_id query = do
      both_guards (super_admin ∷ leader ∷ servant ∷ []) req
      class_id ← lift (outside.parse_uuid path_id)
      q ← lift query
      MemberService.list member_repo classes class_id q.filter (page_info q)

    -- The branch of `add` on the body.
    unfoldable pub add_body : Text → AddBody → Action S BulkAddResult
    add_body class_id (members rows) = MemberService.add_bulk member_repo classes class_id rows
    add_body class_id (single raw) = do
      member ← MemberService.add_one member_repo classes class_id raw
      pure (record { created = 1; items = member ∷ [] })

    unfoldable pub add_members : Request → Text → Result AddBody → Action S BulkAddResult
    add_members req path_id body = do
      both_guards (super_admin ∷ leader ∷ servant ∷ []) req
      class_id ← lift (outside.parse_uuid path_id)
      input ← lift body
      add_body class_id input

    -- MemberItemController
    unfoldable pub get_member : Text → Action S Member
    get_member path_id = do
      id ← lift (outside.parse_uuid path_id)
      MemberService.get_by_id member_repo classes id

    unfoldable pub update_member : Request → Text → Result RawUpdate → Action S Member
    update_member req path_id body = do
      roles_guard (super_admin ∷ leader ∷ []) req
      id ← lift (outside.parse_uuid path_id)
      input ← lift body
      MemberService.update member_repo classes id input

    unfoldable pub remove_member : Request → Text → Action S (Unit {0})
    remove_member req path_id = do
      roles_guard (super_admin ∷ leader ∷ []) req
      id ← lift (outside.parse_uuid path_id)
      MemberService.set_active member_repo classes id false
      pure tt

  module _ (classes : ClassRepository S) (mapping : ServantClassRepository S)
      (users : UserDirectory S) where
    -- ServantsController
    unfoldable pub list_servants : Request → Text → Action S (List Text)
    list_servants req path_id = do
      both_guards (super_admin ∷ leader ∷ []) req
      id ← lift (outside.parse_uuid path_id)
      ServantService.list classes mapping users id

    unfoldable pub assign_servants : Request → Text → Result (List Text) → Action S AssignResult
    assign_servants req path_id body = do
      both_guards (super_admin ∷ leader ∷ []) req
      id ← lift (outside.parse_uuid path_id)
      user_ids ← lift body
      ServantService.assign classes mapping users id user_ids

    unfoldable pub unassign_servant : Request → Text → Text → Action S (Unit {0})
    unassign_servant req path_id path_user = do
      both_guards (super_admin ∷ leader ∷ []) req
      id ← lift (outside.parse_uuid path_id)
      user_id ← lift (outside.parse_uuid path_user)
      ServantService.unassign classes mapping users id user_id
