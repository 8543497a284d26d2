-- ===== src/Classes/Repositories/Servants.antt =====
-- repositories/prisma-servant-class.repository.ts
pub mod Laws
mod Tests
use taksees.Prelude.{ℕ, zero, Bool, List, Text, ltb}
use taksees.Effects.{Action, then_do, ◌>>=◌, pure}
use taksees.Classes.Interfaces.{ServantClassRepository}

-- `prisma.servantClass`: the calls that the repository makes, with their `where` and `data`.
pub record ServantClassTable (S : Type 0) : Type 0 where
  pub count : (servant_id class_id : Text) → Action S ℕ
  pub create : (servant_id class_id : Text) → Action S (Unit {0})
  pub delete : (servant_id class_id : Text) → Action S (Unit {0})
  pub find_by_class : (class_id : Text) → Action S (List Text)
  pub find_by_servant : (servant_id : Text) → Action S (List Text)

module _ {S : Type 0} (table : ServantClassTable S) where
  unfoldable pub is_assigned : Text → Text → Action S Bool
  is_assigned servant_id class_id = do count ← table.count servant_id class_id; pure (ltb 0 count)

  unfoldable pub assign : Text → Text → Action S (Unit {0})
  assign servant_id class_id = table.create servant_id class_id

  unfoldable pub unassign : Text → Text → Action S (Unit {0})
  unassign servant_id class_id = table.delete servant_id class_id

  unfoldable pub list_by_class : Text → Action S (List Text)
  list_by_class class_id = table.find_by_class class_id

  unfoldable pub list_by_user : Text → Action S (List Text)
  list_by_user user_id = table.find_by_servant user_id

  abbrev pub repository : ServantClassRepository S
  repository = record {
    is_assigned = is_assigned;
    assign = assign;
    unassign = unassign;
    list_by_class = list_by_class;
    list_by_user = list_by_user;
  }
