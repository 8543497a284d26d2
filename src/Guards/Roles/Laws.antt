-- ===== src/Guards/Roles/Laws.antt =====
-- What a passing RolesGuard has established.
use taksees.Prelude.{
  ◌≡◌, ◌≢◌, refl, ap, ◌∙◌, ◌↔◌, inl, inr, true, false, List, [], ◌∷◌, map, Option, none, some, Text,
  arith, includes, ◌===◌, ===_iff, ===_self, Bool-cases, Option-cases, is_empty_iff,
}
use taksees.Errors.{Result, ok, >>=-eq-ok}
use taksees.Roles.{UserRole, role_name, normalise_role}
use taksees.Guards.Roles.{
  RawUser, Request, header_list, with_id, check_role, resolve_user, can_activate,
}

-- Membership in the list that `@Roles` is given.
pub data IsListed (r : UserRole) : List UserRole → Type 0 where
  head : (rs : List UserRole) → IsListed r (r ∷ rs)
  tail : (q : UserRole) {rs : List UserRole} → IsListed r rs → IsListed r (q ∷ rs)

role_name-injective : (q r : UserRole) → role_name q ≡ role_name r → q ≡ r
role_name-injective q r e = ground arith

includes-IsListed :
    (rs : List UserRole) (r : UserRole)
    → includes (map role_name rs) (role_name r) ≡ true
    → IsListed r rs
includes-IsListed [] r h = cc
includes-IsListed (q ∷ rs) r h = elim (Bool-cases (role_name q === role_name r)) [
  | inl same ↦ rw (role_name-injective q r ((===_iff _ _).0 same)) (head rs)
  | inr other ↦ tail q (includes-IsListed rs r (rw other at h))
]

IsListed-includes :
    (r : UserRole) (rs : List UserRole)
    → IsListed r rs
    → includes (map role_name rs) (role_name r) ≡ true
IsListed-includes r _ (head rs) = rw (===_self (role_name r))
IsListed-includes r _ (tail q {rs} m) = ground (arith, IsListed-includes r rs m)

check_role_iff :
    (required : List UserRole) (found : Option RawUser)
    → (check_role required found ≡ ok true)
      ↔ ((u : RawUser) × (found ≡ some u) × IsListed (normalise_role u.role) required)
unfolding check_role
check_role_iff required none = (λ e. cc, λ (u, e, _). cc)
check_role_iff required (some u) = (
  λ e. (u, refl, includes-IsListed required _ (ground arith)),
  λ (v, e, m). let same : v ≡ u = cc in rw (IsListed-includes _ required (rw same at m)),
)

check_role-ne-false :
    (required : List UserRole) (found : Option RawUser) → check_role required found ≢ ok false
unfolding check_role
check_role-ne-false required none e = cc
check_role-ne-false required (some u) e = ground arith

module _ (get_session : List (Text × Text) → Result (Option RawUser)) (req : Request) where
  -- The user that a request speaks for: the attached one if it has an id, or else the one that the
  -- session of the request's headers holds, if that has an id.
  pub data Authenticated (u : RawUser) : Type 0 where
    attached : req.user ≡ some u → u.id ≢ [] → Authenticated u
    by_session :
        with_id req.user ≡ none
        → get_session (header_list req.headers) ≡ ok (some u)
        → u.id ≢ []
        → Authenticated u

  with_id_iff :
      (o : Option RawUser) (u : RawUser) → (with_id o ≡ some u) ↔ ((o ≡ some u) × (u.id ≢ []))
  unfolding with_id
  with_id_iff none u = (λ e. cc, λ h. cc h.0)
  with_id_iff (some v) u =
      (λ e. ground (arith, is_empty_iff v.id), λ h. ground (arith, is_empty_iff v.id))

  resolve_user-Authenticated :
      (u : RawUser) → resolve_user get_session req ≡ ok (some u) → Authenticated u
  unfolding resolve_user
  resolve_user-Authenticated u h = elim (Option-cases (with_id req.user)) [
    | inr (v, e) ↦
        let same : with_id req.user ≡ some u = e ∙ ground arith in
        let (here, named) = (with_id_iff req.user u).0 same in attached here named
    | inl missing ↦
        let (found, held, e) =
          >>=-eq-ok (get_session (header_list req.headers)) (λ found. ok (with_id found))
            (rw (missing, resolve_user) at h) in
        let (here, named) = (with_id_iff found u).0 (ground arith) in
        by_session missing (held ∙ ap ok here) named
  ]

  Authenticated-resolve_user :
      (u : RawUser) → Authenticated u → resolve_user get_session req ≡ ok (some u)
  unfolding resolve_user
  Authenticated-resolve_user u (attached here named) =
      rw ((with_id_iff req.user u).1 (here, named), resolve_user)
  Authenticated-resolve_user u (by_session missing held named) =
      rw (missing, resolve_user, held) (ap ok ((with_id_iff (some u) u).1 (refl, named)))

  -- With a role set declared, RolesGuard lets a request through exactly when it speaks for a user
  -- whose normalised role is in the set; it never answers `false`.
  pub roles_guard_iff :
      (r : UserRole) (rs : List UserRole)
      → ((can_activate get_session (some (r ∷ rs)) req ≡ ok true)
          ↔ ((u : RawUser) × Authenticated u × IsListed (normalise_role u.role) (r ∷ rs)))
        × (can_activate get_session (some (r ∷ rs)) req ≢ ok false)
  unfolding can_activate
  roles_guard_iff r rs = (
    (
      λ h.
          let (found, e, checked) = >>=-eq-ok _ (check_role (r ∷ rs)) h in
          let (u, same, listed) = (check_role_iff (r ∷ rs) found).0 checked in
          (u, resolve_user-Authenticated u (e ∙ ap ok same), listed),
      λ (u, speaks, listed).
          rw (Authenticated-resolve_user u speaks)
            ((check_role_iff (r ∷ rs) (some u)).1 (u, refl, listed)),
    ),
    λ h.
        let (found, e, checked) = >>=-eq-ok _ (check_role (r ∷ rs)) h in
        check_role-ne-false (r ∷ rs) found checked,
  )
