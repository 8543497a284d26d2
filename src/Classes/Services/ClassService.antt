-- ===== src/Classes/Services/ClassService.antt =====
-- services/class.service.ts
pub mod Laws
mod Tests
use taksees.Prelude.{Bool, true, false, Option, none, some, Text, is_empty, if◌then◌else◌}
use taksees.Errors.{domain, class_not_found, leader_must_be_a_user}
use taksees.Effects.{Action, then_do, ◌>>=◌, ◌>>◌, pure, raise}
use taksees.Classes.Entities.{Class}
use taksees.Classes.Interfaces.{
  CreateClassInput, UpdateClassInput, ListClassesFilter, PageInfo, Paginated, ClassRepository,
  UserDirectory,
}

module _ {S : Type 0} (repo : ClassRepository S) (users : UserDirectory S) where
  unfoldable pub list : ListClassesFilter → PageInfo → Action S (Paginated Class)
  list filter page = repo.list filter page

  -- The end of `getById`.
  unfoldable pub found_or_throw : Text → Option Class → Action S Class
  found_or_throw id none = raise (domain (class_not_found id))
  found_or_throw id (some klass) = pure klass

  unfoldable pub get_by_id : Text → Action S Class
  get_by_id id = do klass ← repo.find_by_id id; found_or_throw id klass

  -- `if (!(await this.users.exists(leaderId))) throw`
  unfoldable pub check_leader : Text → Bool → Action S (Unit {0})
  check_leader leader_id true = pure tt
  check_leader leader_id false = raise (domain (leader_must_be_a_user leader_id))

  unfoldable pub create : CreateClassInput → Action S Class
  create input = do
    known ← users.exists input.leader_id
    check_leader input.leader_id known
    repo.create input

  -- The test of `update`, which a missing or an empty leader id passes without a lookup.
  unfoldable pub check_new_leader : Option Text → Action S (Unit {0})
  check_new_leader none = pure tt
  check_new_leader (some leader_id) =
      if is_empty leader_id then pure tt else users.exists leader_id >>= check_leader leader_id

  unfoldable pub update : Text → UpdateClassInput → Action S Class
  update id input = do get_by_id id; check_new_leader input.leader_id; repo.update id input

  unfoldable pub delete : Text → Action S (Unit {0})
  delete id = do get_by_id id; repo.delete id
