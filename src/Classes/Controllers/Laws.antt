-- ===== src/Classes/Controllers/Laws.antt =====
-- Which requests reach the services.
use taksees.Prelude.{
  ◌≡◌, ◌≢◌, refl, sym, ap, subst, ◌∙◌, Bool, List, [], ◌∷◌, none, some, Text, trim, Bool-cases, inl,
  inr,
}
use taksees.Errors.{Result, ok}
use taksees.Effects.{then_do-ok, lift}
use taksees.Roles.{UserRole, super_admin, leader, normalise_role}
use taksees.Guards.Roles.{RawUser, Headers}
use taksees.Guards.Roles
use taksees.Guards.Roles.Laws.{IsListed, head, tail, Authenticated, attached, roles_guard_iff}
use taksees.Guards.Tenant
use taksees.Guards.Tenant.{activate}
use taksees.Guards.Tenant.Laws.{Grants, grant, leads, tenant_guard_iff}
use taksees.Classes.Entities.{Class}
use taksees.Classes.Interfaces.{
  CreateClassInput, UpdateClassInput, ClassRepository, ServantClassRepository, UserDirectory,
}
use taksees.Classes.Services.ClassService
use taksees.Classes.Services.ServantService.{AssignResult}
use taksees.Classes.Services.ServantService
use taksees.Classes.Controllers.{
  Request, Outside, auth_user, roles_guard, tenant_guard, both_guards, create_class, update_class,
  assign_servants,
}

module _ {S : Type 0} (outside : Outside S) (req : Request) where
  abbrev pub roles_request : Roles.Request
  roles_request = record { user = req.user; headers = req.headers }

  abbrev pub tenant_request : Tenant.Request
  tenant_request = record {
    user = auth_user req.user;
    class_header = req.class_header;
    active_class_id = none;
  }

  -- The request speaks for a user with one of the roles.
  pub record HasRole (required : List UserRole) : Type 0 where
    pub user : RawUser
    pub speaks : Authenticated outside.get_session roles_request user
    pub listed : IsListed (normalise_role user.role) required

  pub roles_guard-HasRole :
      (r : UserRole) (rs : List UserRole) (b : Bool) (s t : S)
      → roles_guard outside (r ∷ rs) req s ≡ (ok b, t)
      → HasRole (r ∷ rs) × (t ≡ s)
  unfolding roles_guard
  roles_guard-HasRole r rs b s t h =
      let (passes, never) = roles_guard_iff outside.get_session roles_request r rs in
      let answer = ap (λ o. o.0) h in
      elim (Bool-cases b) [
        | inl e ↦
            let (u, speaks, listed) = passes.0 (answer ∙ ap ok e) in
            (record { user = u; speaks = speaks; listed = listed }, sym (ap (λ o. o.1) h))
        | inr e ↦ absurd (never (answer ∙ ap ok e))
      ]

  both_guards-ok :
      (r : UserRole) (rs : List UserRole) (g : Tenant.Request) (s t : S)
      → both_guards outside (r ∷ rs) req s ≡ (ok g, t)
      → HasRole (r ∷ rs)
        × ((class_id : Text) × Grants
              (outside.find_leader s)
              (outside.is_servant s)
              tenant_request
              class_id)
        × (t ≡ s)
  unfolding both_guards tenant_guard
  both_guards-ok r rs g s t h =
      let (b, u, e, h₁) = then_do-ok (roles_guard outside (r ∷ rs) req s) _ h in
      let (has_role, same) = roles_guard-HasRole r rs b s u e in
      let h₂ = subst (λ x. tenant_guard outside req x ≡ (ok g, t)) same h₁ in
      let (class_id, grants, _) =
        (tenant_guard_iff (outside.find_leader s) (outside.is_servant s) tenant_request g).0
          (ap (λ o. o.0) h₂) in
      (has_role, (class_id, grants), sym (ap (λ o. o.1) h₂))

  -- If `create_class` returns a class, the request speaks for a user whose role is SUPER_ADMIN, the
  -- body is valid, and the class is what the service made of it in the state before.
  pub create_class_authorised :
      (repo : ClassRepository S) (users : UserDirectory S) (body : Result CreateClassInput)
      (s t : S) (klass : Class)
      → create_class outside repo users req body s ≡ (ok klass, t)
      → HasRole (super_admin ∷ [])
        × ((input : CreateClassInput) × (body ≡ ok input)
            × (ClassService.create repo users input s ≡ (ok klass, t)))
  unfolding create_class
  create_class_authorised repo users body s t klass h =
      let (b, u, e, h₁) = then_do-ok (roles_guard outside (super_admin ∷ []) req s) _ h in
      let (has_role, same) = roles_guard-HasRole super_admin [] b s u e in
      let (input, v, e₁, h₂) = then_do-ok (lift body u) _ h₁ in
      (
        has_role,
        (
          input,
          ap (λ o. o.0) e₁,
          subst (λ x. ClassService.create repo users input x ≡ (ok klass, t))
              (sym (ap (λ o. o.1) e₁) ∙ same) h₂,
        ),
      )

  -- If `assign_servants` returns, the request speaks for a SUPER_ADMIN or a LEADER, it names in its
  -- header a class in which its user may act, and the result is the service's for the class of the
  -- path and the users of the body.
  pub assign_servants_authorised :
      (classes : ClassRepository S) (mapping : ServantClassRepository S) (users : UserDirectory S)
      (path_id : Text) (body : Result (List Text)) (s t : S) (r : AssignResult)
      → assign_servants outside classes mapping users req path_id body s ≡ (ok r, t)
      → HasRole (super_admin ∷ leader ∷ [])
        × ((class_id : Text) × Grants
              (outside.find_leader s)
              (outside.is_servant s)
              tenant_request
              class_id)
        × ((id : Text) × (ids : List Text) × (outside.parse_uuid path_id ≡ ok id)
            × (body ≡ ok ids)
            × (ServantService.assign classes mapping users id ids s ≡ (ok r, t)))
  unfolding assign_servants
  assign_servants_authorised classes mapping users path_id body s t r h =
      let (g, u, e, h₁) = then_do-ok (both_guards outside (super_admin ∷ leader ∷ []) req s) _ h in
      let (has_role, granted, same) = both_guards-ok super_admin (leader ∷ []) g s u e in
      let (id, v, e₁, h₂) = then_do-ok (lift (outside.parse_uuid path_id) u) _ h₁ in
      let (ids, w, e₂, h₃) = then_do-ok (lift body v) _ h₂ in
      let back : w ≡ s = sym (ap (λ o. o.1) e₂) ∙ (sym (ap (λ o. o.1) e₁) ∙ same) in
      (
        has_role,
        granted,
        (
          id,
          ids,
          ap (λ o. o.0) e₁,
          ap (λ o. o.0) e₂,
          subst (λ x. ServantService.assign classes mapping users id ids x ≡ (ok r, t)) back h₃,
        ),
      )

  -- If the user that is attached to the request is a LEADER and leads the class that the header
  -- names, `update_class` runs the service's update on the class of the path, whichever that class
  -- is: the guards do not compare it with the header's.
  pub leader_updates_any_class :
      (repo : ClassRepository S) (users : UserDirectory S) (u : RawUser) (header path_id id : Text)
      (input : UpdateClassInput) (s : S)
      → req.user ≡ some u
      → u.id ≢ []
      → normalise_role u.role ≡ leader
      → req.class_header ≡ some header
      → trim header ≢ []
      → outside.find_leader s (trim header) ≡ ok (some u.id)
      → outside.parse_uuid path_id ≡ ok id
      → update_class outside repo users req path_id (ok input) s
        ≡ ClassService.update repo users id input s
  unfolding update_class both_guards roles_guard tenant_guard
  leader_updates_any_class repo users u header path_id id input s here named role sent given led
        parsed =
      let listed : IsListed (normalise_role u.role) (super_admin ∷ leader ∷ []) =
        rw role (tail super_admin (head [])) in
      let passes =
        (roles_guard_iff outside.get_session roles_request super_admin (leader ∷ [])).0.1
          (u, attached here named, listed) in
      let granted =
        (tenant_guard_iff (outside.find_leader s) (outside.is_servant s) tenant_request
            (activate tenant_request (trim header))).1
          (trim header, grant _ header (ap auth_user here) sent refl given (leads led), refl) in
      rw (passes, granted, parsed) refl
