-- ===== src/Classes/Repositories/Servants/Laws.antt =====
-- The repository of the servants' classes keeps the contract that the assignment relies on.
use taksees.Prelude.{
  ℕ, ◌+◌, ◌≤◌, ◌≡◌, refl, Bool, true, ◌&&◌, ◌||◌, List, includes, Text, codes, arith, ltb,
  if◌then◌else◌, ◌===◌, ===_iff,
}
use taksees.Errors.{ok, throws, Exception, prisma_known, domain, http, error}
use taksees.Classes.Services.ServantService.{AssignResult, is_duplicate}
use taksees.Classes.Services.ServantService
use taksees.Classes.Interfaces.{ClassRepository, UserDirectory}
use taksees.Classes.Services.ServantService.Effect.{IsMapping, IsFixed, assign_effect}
use taksees.Classes.Repositories.Servants.{
  ServantClassTable, is_assigned, assign, unassign, repository,
}

-- Whether the two pairs of a servant and a class are the same.
abbrev pub same_pair : Text → Text → Text → Text → Bool
same_pair servant class v d = servant === v && class === d

-- The documented behaviour of the database client on a table with the unique key of a servant and
-- a class, while no other request writes to it: `number` is how many rows a pair has.
pub record IsTable {S : Type 0} (table : ServantClassTable S) : Type 0 where
  pub number : S → Text → Text → ℕ
  pub count_lem :
      (servant class : Text) (s : S)
      → table.count servant class s ≡ (ok (number s servant class), s)
  pub number-create :
      (servant class : Text) (s t : S)
      → table.create servant class s ≡ (ok tt, t)
      → (v d : Text) → number t v d ≡ number s v d + (if same_pair servant class v d then 1 else 0)
  pub create-throws :
      (servant class : Text) (s t : S) (e : Exception)
      → table.create servant class s ≡ (throws e, t)
      → t ≡ s
  -- only a row that is there violates the unique key
  pub create-P2002 :
      (servant class : Text) (s t : S) (code : Text)
      → table.create servant class s ≡ (throws (prisma_known code), t)
      → code ≡ codes "P2002"
      → 1 ≤ number s servant class
  pub number-delete :
      (servant class : Text) (s t : S)
      → table.delete servant class s ≡ (ok tt, t)
      → (v d : Text) → number t v d ≡ (if same_pair servant class v d then 0 else number s v d)

is_duplicate-cases :
    (e : Exception)
    → is_duplicate e ≡ true
    → (code : Text) × (e ≡ prisma_known code) × (code ≡ codes "P2002")
unfolding is_duplicate
is_duplicate-cases (prisma_known code) h = (code, refl, (===_iff code (codes "P2002")).0 h)
is_duplicate-cases (domain e) h = cc
is_duplicate-cases (http kind text) h = cc
is_duplicate-cases (error text) h = cc

module _ {S : Type 0} (table : ServantClassTable S) (lawful : IsTable table) where
  -- Over a table that behaves as documented, the repository keeps the contract of the interface:
  -- it reads, sets and clears exactly the given pair, and reports a duplicate only for a pair that
  -- is there.
  pub repository-IsMapping : IsMapping (repository table)
  unfolding is_assigned assign unassign
  repository-IsMapping = record {
    row = λ s v d. ltb 0 (lawful.number s v d);
    is_assigned_lem = λ servant class s. rw (lawful.count_lem servant class s) refl;
    row-assign =
        λ servant class s t h v d. ground (arith, lawful.number-create servant class s t h v d);
    assign-throws = λ servant class s t e h. lawful.create-throws servant class s t e h;
    assign-duplicate = λ servant class s t e h dup.
        let (code, same, is_p2002) = is_duplicate-cases e dup in
        ground (arith, lawful.create-P2002 servant class s t code (cc (h, same)) is_p2002);
    row-unassign =
        λ servant class s t h v d. ground (arith, lawful.number-delete servant class s t h v d);
  }

  -- Over a table that behaves as documented, with classes and users that do not change: if `assign`
  -- of the service over this repository succeeds, a pair has a row afterwards just if it had one
  -- before or is one of the given users with the given class.
  pub assign_rows :
      (classes : ClassRepository S) (users : UserDirectory S)
      → IsFixed classes users
      → (class : Text) (ids : List Text) (s t : S) (r : AssignResult)
      → ServantService.assign classes (repository table) users class ids s ≡ (ok r, t)
      → (v d : Text)
      → ltb 0 (lawful.number t v d)
        ≡ (ltb 0 (lawful.number s v d) || (includes ids v && class === d))
  unfolding repository-IsMapping
  assign_rows classes users fixed class ids s t r h v d =
      assign_effect classes (repository table) users repository-IsMapping fixed class ids s t r h v
        d
