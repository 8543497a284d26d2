-- ===== src/Classes/Repositories/Classes.antt =====
-- repositories/prisma-class.repository.ts
pub mod Registry
pub mod Refinement
mod Tests
use taksees.Prelude.{ℕ, Bool, List, map, Option, none, some, Text, ltb, is_empty, if◌then◌else◌}
use taksees.Effects.{Action, ◌>>=◌, pure}
use taksees.Classes.Level.{ClassLevel}
use taksees.Classes.Entities.{Class, ClassRow, class_from_prisma}
use taksees.Classes.Interfaces.{
  CreateClassInput, UpdateClassInput, ListClassesFilter, PageInfo, Paginated, ClassRepository,
}
use taksees.Classes.Repositories.Paging.{Offset, Direction, desc, skip}

-- `where` of `list`
pub record ClassWhere : Type 0 where
  pub level : Option ClassLevel
  pub leader_id : Option Text

pub data Column : Type 0 where
  by_created_at : Column

-- `orderBy` of `list`
abbrev pub order_by : Column × Direction
order_by = (by_created_at, desc)

-- `prisma.class`: the calls that the repository makes. A search runs with its count in one
-- transaction.
pub record ClassTable (S : Type 0) : Type 0 where
  pub find_unique_id : (id : Text) → Action S (Option ClassRow)
  pub find_unique_leader : (leader_id : Text) → Action S (Option ClassRow)
  pub find_many_and_count :
      ClassWhere → Column × Direction → Offset → (take : ℕ) → Action S (List ClassRow × ℕ)
  pub create : CreateClassInput → Action S ClassRow
  pub update : (id : Text) → UpdateClassInput → Action S ClassRow
  pub delete : (id : Text) → Action S (Unit {0})
  pub count : (id : Text) → Action S ℕ

-- `...(filter.leaderId ? { leaderId } : {})`, which drops the empty text; a level is never empty
unfoldable pub leader_filter : Option Text → Option Text
leader_filter none = none
leader_filter (some id) = if is_empty id then none else some id

unfoldable pub where_of : ListClassesFilter → ClassWhere
where_of filter = record { level = filter.level; leader_id = leader_filter filter.leader_id }

-- `row ? Class.fromPrisma(row) : null`
unfoldable pub optional_class : Option ClassRow → Option Class
optional_class none = none
optional_class (some row) = some (class_from_prisma row)

unfoldable pub page_of : PageInfo → List ClassRow × ℕ → Paginated Class
page_of page (rows, total) = record {
  rows = map class_from_prisma rows;
  meta = record { page = page.page; limit = page.limit; total = total };
}

module _ {S : Type 0} (table : ClassTable S) where
  unfoldable pub find_by_id : Text → Action S (Option Class)
  find_by_id id = do row ← table.find_unique_id id; pure (optional_class row)

  unfoldable pub find_by_leader_id : Text → Action S (Option Class)
  find_by_leader_id leader_id = do
    row ← table.find_unique_leader leader_id
    pure (optional_class row)

  unfoldable pub list : ListClassesFilter → PageInfo → Action S (Paginated Class)
  list filter page = do
    found ←
        table.find_many_and_count (where_of filter) order_by (skip page.page page.limit) page.limit
    pure (page_of page found)

  unfoldable pub create : CreateClassInput → Action S Class
  create input = do row ← table.create input; pure (class_from_prisma row)

  unfoldable pub update : Text → UpdateClassInput → Action S Class
  update id input = do row ← table.update id input; pure (class_from_prisma row)

  unfoldable pub delete : Text → Action S (Unit {0})
  delete id = table.delete id

  unfoldable pub exists : Text → Action S Bool
  exists id = do count ← table.count id; pure (ltb 0 count)

  abbrev pub repository : ClassRepository S
  repository = record {
    find_by_id = find_by_id;
    find_by_leader_id = find_by_leader_id;
    list = list;
    create = create;
    update = update;
    delete = delete;
    exists = exists;
  }
