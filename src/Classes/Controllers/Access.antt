-- ===== src/Classes/Controllers/Access.antt =====
-- Every guarded handler of controllers/ as one call, and what a request without the role gets.
use taksees.Prelude.{◌≡◌, refl, ap, inl, inr, List, [], ◌∷◌, Text}
use taksees.Errors.{Result, throws, Exception}
use taksees.Effects.{Action, ◌>>=◌, pure, outcome_cases}
use taksees.Roles.{UserRole, super_admin, leader, servant}
use taksees.Classes.Interfaces.{
  CreateClassInput, UpdateClassInput, ListMembersFilter, ClassRepository, MemberRepository,
  ServantClassRepository, UserDirectory,
}
use taksees.Classes.Services.MemberInput.{RawUpdate}
use taksees.Classes.Controllers.{
  Request, Outside, AddBody, Query, roles_guard, both_guards, create_class, update_class,
  remove_class, list_members, add_members, update_member, remove_member, list_servants,
  assign_servants, unassign_servant,
}
use taksees.Classes.Controllers.Laws.{HasRole, roles_guard-HasRole}

-- A call of a handler with guards, with its path and what its pipes made of its query or body.
pub data Call : Type 0 where
  creates_class : Result CreateClassInput → Call
  updates_class : (path_id : Text) → Result UpdateClassInput → Call
  removes_class : (path_id : Text) → Call
  lists_members : (path_id : Text) → Result (Query ListMembersFilter) → Call
  adds_members : (path_id : Text) → Result AddBody → Call
  updates_member : (path_id : Text) → Result RawUpdate → Call
  removes_member : (path_id : Text) → Call
  lists_servants : (path_id : Text) → Call
  assigns_servants : (path_id : Text) → Result (List Text) → Call
  unassigns_servant : (path_id path_user : Text) → Call

-- The roles that may use a part of the API: super admins make and remove classes, leaders also
-- change them, their members and their servants, and servants also see and add members.
abbrev pub allowed : Call → List UserRole
allowed (creates_class body) = super_admin ∷ []
allowed (updates_class path_id body) = super_admin ∷ leader ∷ []
allowed (removes_class path_id) = super_admin ∷ []
allowed (lists_members path_id query) = super_admin ∷ leader ∷ servant ∷ []
allowed (adds_members path_id body) = super_admin ∷ leader ∷ servant ∷ []
allowed (updates_member path_id body) = super_admin ∷ leader ∷ []
allowed (removes_member path_id) = super_admin ∷ leader ∷ []
allowed (lists_servants path_id) = super_admin ∷ leader ∷ []
allowed (assigns_servants path_id body) = super_admin ∷ leader ∷ []
allowed (unassigns_servant path_id path_user) = super_admin ∷ leader ∷ []

-- A call whose result is not looked at.
abbrev discard : {S A : Type 0} → Action S A → Action S (Unit {0})
discard call = call >>= λ _. pure tt

module _ {S : Type 0} (outside : Outside S) (repo : ClassRepository S)
    (member_repo : MemberRepository S) (mapping : ServantClassRepository S)
    (users : UserDirectory S) (req : Request) where
  abbrev pub perform : Call → Action S (Unit {0})
  perform (creates_class body) = discard (create_class outside repo users req body)
  perform (updates_class path_id body) = discard (update_class outside repo users req path_id body)
  perform (removes_class path_id) = remove_class outside repo users req path_id
  perform (lists_members path_id query) =
      discard (list_members outside member_repo repo req path_id query)
  perform (adds_members path_id body) =
      discard (add_members outside member_repo repo req path_id body)
  perform (updates_member path_id body) =
      discard (update_member outside member_repo repo req path_id body)
  perform (removes_member path_id) = remove_member outside member_repo repo req path_id
  perform (lists_servants path_id) = discard (list_servants outside repo mapping users req path_id)
  perform (assigns_servants path_id body) =
      discard (assign_servants outside repo mapping users req path_id body)
  perform (unassigns_servant path_id path_user) =
      unassign_servant outside repo mapping users req path_id path_user

  -- RolesGuard throws, and reads only.
  guard_refuses :
      (r : UserRole) (rs : List UserRole) (s : S)
      → ¬ HasRole outside req (r ∷ rs)
      → (e : Exception) × (roles_guard outside (r ∷ rs) req s ≡ (throws e, s))
  unfolding roles_guard
  guard_refuses r rs s lacks = elim (outcome_cases (roles_guard outside (r ∷ rs) req s)) [
    | inl (b, t, e) ↦ absurd (lacks (roles_guard-HasRole outside req r rs b s t e).0)
    | inr (x, t, e) ↦ (x, ap (λ o. (o.0, s)) e)
  ]

  both_refuse :
      (r : UserRole) (rs : List UserRole) (s : S)
      → ¬ HasRole outside req (r ∷ rs)
      → (e : Exception) × (both_guards outside (r ∷ rs) req s ≡ (throws e, s))
  unfolding both_guards
  both_refuse r rs s lacks = let (x, e) = guard_refuses r rs s lacks in (x, rw e refl)

  -- A request that does not speak for one of the roles that a guarded handler allows is refused
  -- with an exception, whatever its headers, its path and its body are, and changes nothing: this
  -- holds of each of the ten handlers.
  pub perform-refused :
      (call : Call) (s : S)
      → ¬ HasRole outside req (allowed call)
      → (e : Exception) × (perform call s ≡ (throws e, s))
  unfolding create_class update_class remove_class list_members add_members update_member
      remove_member list_servants assign_servants unassign_servant
  perform-refused (creates_class body) s lacks =
      let (x, e) = guard_refuses super_admin [] s lacks in (x, rw e refl)
  perform-refused (updates_class path_id body) s lacks =
      let (x, e) = both_refuse super_admin (leader ∷ []) s lacks in (x, rw e refl)
  perform-refused (removes_class path_id) s lacks =
      let (x, e) = guard_refuses super_admin [] s lacks in (x, rw e refl)
  perform-refused (lists_members path_id query) s lacks =
      let (x, e) = both_refuse super_admin (leader ∷ servant ∷ []) s lacks in (x, rw e refl)
  perform-refused (adds_members path_id body) s lacks =
      let (x, e) = both_refuse super_admin (leader ∷ servant ∷ []) s lacks in (x, rw e refl)
  perform-refused (updates_member path_id body) s lacks =
      let (x, e) = guard_refuses super_admin (leader ∷ []) s lacks in (x, rw e refl)
  perform-refused (removes_member path_id) s lacks =
      let (x, e) = guard_refuses super_admin (leader ∷ []) s lacks in (x, rw e refl)
  perform-refused (lists_servants path_id) s lacks =
      let (x, e) = both_refuse super_admin (leader ∷ []) s lacks in (x, rw e refl)
  perform-refused (assigns_servants path_id body) s lacks =
      let (x, e) = both_refuse super_admin (leader ∷ []) s lacks in (x, rw e refl)
  perform-refused (unassigns_servant path_id path_user) s lacks =
      let (x, e) = both_refuse super_admin (leader ∷ []) s lacks in (x, rw e refl)
