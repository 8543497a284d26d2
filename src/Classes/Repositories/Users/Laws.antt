-- ===== src/Classes/Repositories/Users/Laws.antt =====
-- What the user directory answers, over a table that behaves as documented.
use taksees.Prelude.{
  ◌≡◌, refl, ap, ◌∙◌, Bool, false, ◌&&◌, List, [], ◌∷◌, Text, length, keep, includes, ◌===◌,
}
use taksees.Errors.{ok}
use taksees.Roles.{UserRole, super_admin, leader, servant, member, role_name, stored_name}
use taksees.Classes.Repositories.Users.{UserTable, exists_many, count_servants}

-- The documented behaviour of the client's reads of the users: which users there are, and the role
-- that the column holds. A search by ids returns the users among them, each id once, in any order.
pub record IsUserTable {S : Type 0} (table : UserTable S) : Type 0 where
  pub is_user : Text → Bool
  pub role_at : Text → Text
  pub found : List Text → List Text
  pub find_ids_lem : (ids : List Text) (s : S) → table.find_ids ids s ≡ (ok (found ids), s)
  pub includes-found :
      (ids : List Text) (v : Text) → includes (found ids) v ≡ (includes ids v && is_user v)
  pub count_role_lem :
      (ids : List Text) (role : Text) (s : S)
      → table.count_role ids role s
        ≡ (ok (length (keep (λ id. role_at id === role) (found ids))), s)

stored-not-servant : (r : UserRole) → (stored_name r === role_name servant) ≡ false
unfolding ◌===◌
stored-not-servant super_admin = refl
stored-not-servant leader = refl
stored-not-servant servant = refl
stored-not-servant member = refl

keep-none : (p : Text → Bool) (ids : List Text) → ((id : Text) → p id ≡ false) → keep p ids ≡ []
keep-none p [] h = refl
keep-none p (id ∷ ids) h = rw (h id) (keep-none p ids h)

module _ {S : Type 0} (table : UserTable S) (lawful : IsUserTable table) where
  -- For every list of ids, the empty one that is not looked up included, `exists_many` answers a
  -- set that holds an id just if it was asked for and is a user's.
  pub exists_many_set :
      (ids : List Text) (s : S)
      → (known : List Text) × (exists_many table ids s ≡ (ok known, s))
        × ((v : Text) → includes known v ≡ (includes ids v && lawful.is_user v))
  unfolding exists_many
  exists_many_set [] s = ([], refl, λ v. refl)
  exists_many_set (id ∷ ids) s =
      (lawful.found (id ∷ ids), lawful.find_ids_lem (id ∷ ids) s, lawful.includes-found (id ∷ ids))

  -- Over a table that behaves as documented: if the role column holds the role names that the
  -- sign-up writes, `count_servants` answers zero for every list of ids: it searches for a spelling
  -- that is never stored.
  pub count_servants_zero :
      (ids : List Text) (s : S)
      → ((id : Text) → (r : UserRole) × (lawful.role_at id ≡ stored_name r))
      → count_servants table ids s ≡ (ok 0, s)
  unfolding count_servants
  count_servants_zero [] s h = refl
  count_servants_zero (id ∷ ids) s h =
      lawful.count_role_lem (id ∷ ids) (role_name servant) s
      ∙ ap (λ xs. (ok (length xs), s))
          (keep-none _ (lawful.found (id ∷ ids))
            (λ u. let (r, e) = h u in rw e (stored-not-servant r)))
