-- ===== src/Classes/Services/ServantService.antt =====
-- services/servant-class.service.ts
pub mod Counts
pub mod Effect
mod Tests
use taksees.Prelude.{
  ℕ, zero, ◌+◌, Bool, true, false, not, List, [], ◌∷◌, Option, none, some, Text, codes, keep,
  includes, ◌===◌, if◌then◌else◌,
}
use taksees.Errors.{
  Result, ok, throws, Exception, prisma_known, domain, class_not_found, servant_must_be_a_user,
}
use taksees.Effects.{Action, then_do, ◌>>=◌, ◌>>◌, or_catch, pure, raise}
use taksees.Classes.Interfaces.{ClassRepository, ServantClassRepository, UserDirectory}
use taksees.Classes.Services.MemberService.{check_class}

pub record AssignResult : Type 0 where
  pub assigned : ℕ
  pub already_assigned : ℕ

-- `userIds.filter((id) => !known.has(id))`
unfoldable pub missing_users : List Text → List Text → List Text
missing_users known user_ids = keep (λ id. not (includes known id)) user_ids

-- `code === 'P2002'`, for an error that may have no code
unfoldable pub is_duplicate : Exception → Bool
is_duplicate (prisma_known code) = code === codes "P2002"
is_duplicate _ = false

unfoldable pub check_missing : {S : Type 0} → List Text → Action S (Unit {0})
check_missing [] = pure tt
check_missing (id ∷ ids) = raise (domain (servant_must_be_a_user id))

-- The `catch` of the loop: a duplicate counts as assigned already, all else is thrown on.
unfoldable pub on_rejected : {S : Type 0} → Exception → Action S Bool
on_rejected e = if is_duplicate e then pure false else raise e

abbrev pub count : Bool → AssignResult → AssignResult
count true r = record r { assigned = r.assigned + 1 }
count false r = record r { already_assigned = r.already_assigned + 1 }

module _ {S : Type 0} (classes : ClassRepository S) (mapping : ServantClassRepository S)
    (users : UserDirectory S) where
  unfoldable pub list : Text → Action S (List Text)
  list class_id = do
    known ← classes.exists class_id
    check_class class_id known
    mapping.list_by_class class_id

  -- `Promise.all(userIds.map((id) => this.mapping.isAssigned(id, classId)))`, run in order
  unfoldable pub existing_flags : Text → List Text → Action S (List Bool)
  existing_flags class_id [] = pure []
  existing_flags class_id (id ∷ ids) = do
    flag ← mapping.is_assigned id class_id
    flags ← existing_flags class_id ids
    pure (flag ∷ flags)

  -- The `try` of the loop: whether the row is new.
  unfoldable pub try_assign : Text → Text → Action S Bool
  try_assign class_id id s =
      or_catch (then_do (mapping.assign id class_id s) (λ _. pure true)) on_rejected

  -- The loop over `userIds`, with `existing[i]` beside each id.
  unfoldable pub assign_loop : Text → List Text → List Bool → AssignResult → Action S AssignResult
  assign_loop class_id [] flags r = pure r
  assign_loop class_id (id ∷ ids) [] r = do
    is_new ← try_assign class_id id
    assign_loop class_id ids [] (count is_new r)
  assign_loop class_id (id ∷ ids) (true ∷ flags) r = assign_loop class_id ids flags (count false r)
  assign_loop class_id (id ∷ ids) (false ∷ flags) r = do
    is_new ← try_assign class_id id
    assign_loop class_id ids flags (count is_new r)

  unfoldable pub assign : Text → List Text → Action S AssignResult
  assign class_id user_ids = do
    known ← classes.exists class_id
    check_class class_id known
    found ← users.exists_many user_ids
    check_missing (missing_users found user_ids)
    flags ← existing_flags class_id user_ids
    assign_loop class_id user_ids flags (record { assigned = 0; already_assigned = 0 })

  -- The end of `unassign`.
  unfoldable pub unassign_if : Text → Text → Bool → Action S (Unit {0})
  unassign_if class_id user_id false = pure tt
  unassign_if class_id user_id true = mapping.unassign user_id class_id

  unfoldable pub unassign : Text → Text → Action S (Unit {0})
  unassign class_id user_id = do
    known ← classes.exists class_id
    check_class class_id known
    assigned ← mapping.is_assigned user_id class_id
    unassign_if class_id user_id assigned
