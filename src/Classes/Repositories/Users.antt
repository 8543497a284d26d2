-- ===== src/Classes/Repositories/Users.antt =====
-- repositories/prisma-user-directory.ts
pub mod Laws
use taksees.Prelude.{
  ℕ, Bool, true, false, List, [], ◌∷◌, Option, none, some, Text, codes, ltb, is_empty,
  if◌then◌else◌,
}
use taksees.Effects.{Action, then_do, ◌>>=◌, pure}
use taksees.Roles.{UserRole, servant, role_name, coerce_role}
use taksees.Classes.Interfaces.{UserDirectory}

-- `prisma.user`: the calls that the directory makes.
pub record UserTable (S : Type 0) : Type 0 where
  pub count : (id : Text) → Action S ℕ
  pub find_ids : (ids : List Text) → Action S (List Text)
  pub count_role : (ids : List Text) → (role : Text) → Action S ℕ
  pub find_role : (id : Text) → Action S (Option Text)

module _ {S : Type 0} (table : UserTable S) where
  unfoldable pub exists : Text → Action S Bool
  exists id = do count ← table.count id; pure (ltb 0 count)

  -- `new Set(...)`, as the list of its elements
  unfoldable pub exists_many : List Text → Action S (List Text)
  exists_many [] = pure []
  exists_many (id ∷ ids) = table.find_ids (id ∷ ids)

  unfoldable pub count_servants : List Text → Action S ℕ
  count_servants [] = pure 0
  count_servants (id ∷ ids) = table.count_role (id ∷ ids) (role_name servant)

  -- The end of `getRole`.
  unfoldable pub coerced : Option Text → Option Text
  coerced none = none
  coerced (some role) = some (coerce_role role)

  unfoldable pub get_role : Text → Action S (Option Text)
  get_role id = do role ← table.find_role id; pure (coerced role)

  abbrev pub repository : UserDirectory S
  repository = record {
    exists = exists;
    exists_many = exists_many;
    count_servants = count_servants;
  }
