-- ===== src/Guards/Roles.antt =====
-- common/guards/roles.guard.ts
pub mod Laws
use taksees.Prelude.{
  Bool, true, false, List, [], ◌∷◌, ◌++◌, map, Option, none, some, Text, codes, ◌===◌,
  if◌then◌else◌, includes, is_empty, join,
}
use taksees.Errors.{Result, ok, throws, http, unauthorized, forbidden, ◌>>=◌}
use taksees.Roles.{UserRole, role_name, normalise_role}

-- `{ id, role? }`, which AuthGuard attaches or the session holds
pub record RawUser : Type 0 where
  pub id : Text
  pub role : Option Text

-- A header's value: `string | string[] | undefined`
pub data HeaderValue : Type 0 where
  one : Text → HeaderValue
  many : List Text → HeaderValue
  absent : HeaderValue

abbrev pub Headers : Type 0
Headers = List (Text × HeaderValue)

-- The loop that copies the headers for `getSession`.
unfoldable pub header_list : Headers → List (Text × Text)
header_list [] = []
header_list ((k, one v) ∷ hs) = (k, v) ∷ header_list hs
header_list ((k, many vs) ∷ hs) = (k, join (codes ", ") vs) ∷ header_list hs
header_list ((k, absent) ∷ hs) = header_list hs

-- `rawUser?.id` as a test: there is a user, and its id is not the empty string.
unfoldable pub with_id : Option RawUser → Option RawUser
with_id none = none
with_id (some u) = if is_empty u.id then none else some u

-- The test of the normalised role against the required set.
unfoldable pub check_role : List UserRole → Option RawUser → Result Bool
check_role required none =
    throws (http unauthorized (codes "Authentication required for role check."))
check_role required (some u) =
    let role = role_name (normalise_role u.role) in
    if includes (map role_name required) role
    then ok true
    else throws (
        http forbidden (
          codes "Role '"
          ++ role
          ++ codes "' is not in the required set ["
          ++ join (codes ", ") (map role_name required)
          ++ codes "]."))

-- What the guard reads of a request.
pub record Request : Type 0 where
  pub user : Option RawUser
  pub headers : Headers

-- `auth.api.getSession({ headers })` is the parameter; the result is `session?.user`.
module _ (get_session : List (Text × Text) → Result (Option RawUser)) where
  -- The attached user, or else the one of the session.
  unfoldable pub resolve_user : Request → Result (Option RawUser)
  resolve_user req = elim (with_id req.user) [
    | some u ↦ ok (some u)
    | none ↦ get_session (header_list req.headers) >>= λ found. ok (with_id found)
  ]

  -- `canActivate`. The first argument is what the reflector finds under the metadata key.
  unfoldable pub can_activate : Option (List UserRole) → Request → Result Bool
  can_activate none req = ok true
  can_activate (some []) req = ok true
  can_activate (some (r ∷ rs)) req = resolve_user req >>= check_role (r ∷ rs)
