-- ===== src/Guards/Tenant/Laws.antt =====
-- Whom ClassTenantGuard lets act in which class.
use taksees.Prelude.{
  ◌≡◌, ◌≢◌, refl, sym, ap, ◌∙◌, ◌↔◌, ◌⊎◌, inl, inr, Bool, true, false, List, [], ◌∷◌, Option, none,
  some, Text, arith, ◌===◌, ===_iff, ===_self, Bool-cases, Option-cases, is_empty, is_empty_iff,
  trim, codes,
}
use taksees.Errors.{Result, ok, throws, http, forbidden, >>=-eq-ok}
use taksees.Roles.{UserRole, super_admin, role_name, stored_name}
use taksees.Roles.Laws.{coercions_disagree}
use taksees.Guards.Roles
use taksees.Guards.Roles.{RawUser}
use taksees.Guards.Roles.Laws.{head, attached, roles_guard_iff}
use taksees.Guards.Tenant.{
  AuthUser, Request, class_id_of, activate, check_servant, check_class, check_access, check_header,
  can_activate,
}

module _ (find_leader : Text → Result (Option Text)) (is_servant : Text → Text → Result Bool) where
  -- A user may act in a class as SUPER_ADMIN, as the leader of that class, or as a servant of the
  -- class, which exists and is led by another.
  pub data MayAct (u : AuthUser) (class_id : Text) : Type 0 where
    admin : u.role ≡ role_name super_admin → MayAct u class_id
    leads : find_leader class_id ≡ ok (some u.id) → MayAct u class_id
    serves :
        (l : Text)
        → find_leader class_id ≡ ok (some l)
        → l ≢ u.id
        → is_servant u.id class_id ≡ ok true
        → MayAct u class_id

  -- The request names a class in its header, and its user may act there.
  pub data Grants (req : Request) (class_id : Text) : Type 0 where
    grant :
        (u : AuthUser) (header : Text)
        → req.user ≡ some u
        → req.class_header ≡ some header
        → trim header ≡ class_id
        → class_id ≢ []
        → MayAct u class_id
        → Grants req class_id

  module _ (req : Request) (u : AuthUser) (class_id : Text) where
    check_servant-ok :
        (req' : Request)
        → check_servant find_leader is_servant req u class_id ≡ ok req'
        → (is_servant u.id class_id ≡ ok true) × (req' ≡ activate req class_id)
    unfolding check_servant
    check_servant-ok req' h = ground arith

    -- What the class row and the assignment say of a user whom `check_class` lets through.
    abbrev Belongs : Option Text → Type 0
    Belongs found =
        (found ≡ some u.id)
        ⊎ ((l : Text) × (found ≡ some l) × (l ≢ u.id) × (is_servant u.id class_id ≡ ok true))

    check_class-ok :
        (found : Option Text) (req' : Request)
        → check_class find_leader is_servant req u class_id found ≡ ok req'
        → Belongs found × (req' ≡ activate req class_id)
    unfolding check_class
    check_class-ok none req' h = cc
    check_class-ok (some l) req' h = elim (Bool-cases (l === u.id)) [
      | inl same ↦ (inl (ap some ((===_iff l u.id).0 same)), ground arith)
      | inr other ↦
          let (assigned, e) = check_servant-ok req' (rw other at h) in
          (inr (l, refl, (λ same. ground (arith, ===_iff l u.id)), assigned), e)
    ]

    Belongs-MayAct :
        (found : Option Text) → find_leader class_id ≡ ok found → Belongs found → MayAct u class_id
    Belongs-MayAct found e (inl same) = leads (e ∙ ap ok same)
    Belongs-MayAct found e (inr (l, same, other, assigned)) =
        serves l (e ∙ ap ok same) other assigned

    check_access-ok :
        (req' : Request)
        → check_access find_leader is_servant req u class_id ≡ ok req'
        → MayAct u class_id × (req' ≡ activate req class_id)
    unfolding check_access
    check_access-ok req' h = elim (Bool-cases (u.role === role_name super_admin)) [
      | inl is_admin ↦ (admin ((===_iff _ _).0 is_admin), ground arith)
      | inr other ↦
          let (found, e, rest) =
            >>=-eq-ok (find_leader class_id) (check_class find_leader is_servant req u class_id)
              (rw (other, check_access) at h) in
          let (belongs, same) = check_class-ok found req' rest in
          (Belongs-MayAct found e belongs, same)
    ]

    MayAct-check_access :
        MayAct u class_id
        → check_access find_leader is_servant req u class_id ≡ ok (activate req class_id)
    unfolding check_access check_class check_servant
    MayAct-check_access (admin e) = ground (arith, ===_iff u.role (role_name super_admin))
    MayAct-check_access (leads e) = rw e (ground (arith, ===_self u.id))
    MayAct-check_access (serves l e other assigned) =
        rw (e, assigned) (ground (arith, ===_iff l u.id))

  class_id_of-some :
      (header : Option Text) (class_id : Text)
      → class_id_of header ≡ some class_id
      → (h : Text) × (header ≡ some h) × (trim h ≡ class_id) × (class_id ≢ [])
  unfolding class_id_of
  class_id_of-some none class_id e = cc
  class_id_of-some (some h) class_id e =
      let given : is_empty (trim h) ≡ false = ground arith in
      let same : trim h ≡ class_id = ground arith in
      (h, refl, same, λ blank. cc (given, (is_empty_iff (trim h)).1 (same ∙ blank)))

  class_id_of-trim : (h : Text) → trim h ≢ [] → class_id_of (some h) ≡ some (trim h)
  unfolding class_id_of
  class_id_of-trim h given = ground (arith, is_empty_iff (trim h))

  check_header-ok :
      (req : Request) (u : AuthUser) (req' : Request)
      → req.user ≡ some u
      → check_header find_leader is_servant req u (class_id_of req.class_header) ≡ ok req'
      → (class_id : Text) × Grants req class_id × (req' ≡ activate req class_id)
  unfolding check_header
  check_header-ok req u req' signed_in h = elim (Option-cases (class_id_of req.class_header)) [
    | inl missing ↦ cc (rw (missing, check_header) at h)
    | inr (class_id, named) ↦
        let (header, sent, same, given) = class_id_of-some req.class_header class_id named in
        let (may, e) = check_access-ok req u class_id req' (rw (named, check_header) at h) in
        (class_id, grant u header signed_in sent same given may, e)
  ]

  guard-Grants :
      (req req' : Request)
      → can_activate find_leader is_servant req ≡ ok req'
      → (class_id : Text) × Grants req class_id × (req' ≡ activate req class_id)
  unfolding can_activate
  guard-Grants req req' h = elim (Option-cases req.user) [
    | inl missing ↦ cc (rw (missing, can_activate) at h)
    | inr (u, signed_in) ↦ check_header-ok req u req' signed_in (rw (signed_in, can_activate) at h)
  ]

  guard_of_user :
      (req : Request) (u : AuthUser)
      → req.user ≡ some u
      → can_activate find_leader is_servant req
        ≡ check_header find_leader is_servant req u (class_id_of req.class_header)
  unfolding can_activate
  guard_of_user req u signed_in = ground arith

  Grants-guard :
      (req : Request) (class_id : Text)
      → Grants req class_id
      → can_activate find_leader is_servant req ≡ ok (activate req class_id)
  unfolding check_header
  Grants-guard req class_id (grant u header signed_in sent same given may) =
      let named : class_id_of req.class_header ≡ some class_id =
        ap class_id_of sent
        ∙ class_id_of-trim header (λ blank. given (sym same ∙ blank))
        ∙ ap some same in
      guard_of_user req u signed_in
      ∙ ap (check_header find_leader is_servant req u) named
      ∙ MayAct-check_access req u class_id may

  -- ClassTenantGuard lets a request through exactly when the request names a class in its
  -- X-Class-Id header, white space around it aside, in which its user may act; it then leaves the
  -- request with that class as the active one and is otherwise unchanged.
  pub tenant_guard_iff :
      (req req' : Request)
      → (can_activate find_leader is_servant req ≡ ok req')
        ↔ ((class_id : Text) × Grants req class_id × (req' ≡ activate req class_id))
  tenant_guard_iff req req' =
      (guard-Grants req req', λ (class_id, granted, e). rw e (Grants-guard req class_id granted))

stored-ne-typed : (stored_name super_admin === role_name super_admin) ≡ false
unfolding ◌===◌
stored-ne-typed = refl

===-of_ne : (s t : Text) → s ≢ t → (s === t) ≡ false
===-of_ne s t other = ground (arith, ===_iff s t)

-- A user whose role column holds `super_admin` passes RolesGuard wherever SUPER_ADMIN is required,
-- and ClassTenantGuard refuses the same user in a class that the user neither leads nor serves.
pub super_admin_refused :
    (find_leader : Text → Result (Option Text)) (is_servant : Text → Text → Result Bool)
    (get_session : List (Text × Text) → Result (Option RawUser)) (headers : Roles.Headers)
    (rs : List UserRole) (id header l : Text)
    → id ≢ []
    → trim header ≢ []
    → find_leader (trim header) ≡ ok (some l)
    → l ≢ id
    → is_servant id (trim header) ≡ ok false
    → let column = stored_name super_admin in
      (Roles.can_activate get_session
          (some (super_admin ∷ rs))
          (record { user = some (record { id = id; role = some column }); headers = headers })
        ≡ ok true)
      × (can_activate find_leader is_servant (record {
        user = some (record { id = id; role = column });
        class_header = some header;
        active_class_id = none;
      })
          ≡ throws (http forbidden (codes "No access to this class context.")))
unfolding can_activate check_header check_access check_class check_servant
super_admin_refused find_leader is_servant get_session headers rs id header l named given led other
      unassigned =
    (
      (roles_guard_iff get_session _ super_admin rs).0.1
          (_, attached refl named, rw (coercions_disagree super_admin).0 (head rs)),
      rw (class_id_of-trim find_leader is_servant header given)
          (rw (stored-ne-typed, led, check_class, ===-of_ne l id other, unassigned, check_servant)),
    )
