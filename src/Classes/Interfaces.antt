-- ===== src/Classes/Interfaces.antt =====
-- domain/interfaces/repositories.interface.ts: what the services ask of the repositories. A call
-- runs over the state of the database, and may reject; the state that it leaves may hold what
-- other requests did in the meantime.
use taksees.Prelude.{ℕ, Bool, List, Option, Text}
use taksees.Effects.{Action}
use taksees.Phone.{Phone}
use taksees.Classes.Level.{ClassLevel}
use taksees.Classes.Entities.{Class, Member}

pub record CreateClassInput : Type 0 where
  pub name : Text
  pub level : ClassLevel
  pub leader_id : Text

pub record UpdateClassInput : Type 0 where
  pub name : Option Text
  pub level : Option ClassLevel
  pub leader_id : Option Text

pub record ListClassesFilter : Type 0 where
  pub level : Option ClassLevel
  pub leader_id : Option Text

pub record PageInfo : Type 0 where
  pub page : ℕ
  pub limit : ℕ
  pub total : ℕ

pub record Paginated (T : Type 0) : Type 0 where
  pub rows : List T
  pub meta : PageInfo

pub record CreateMemberInput : Type 0 where
  pub class_id : Text
  pub full_name : Text
  pub phone : Option Phone
  pub user_id : Option Text

-- A field that a caller may leave out, or set to null.
pub data Field (A : Type 0) : Type 0 where
  undefined : Field A
  null : Field A
  value : A → Field A

pub record UpdateMemberInput : Type 0 where
  pub full_name : Option Text
  pub phone : Field Phone
  pub is_active : Option Bool

pub record ListMembersFilter : Type 0 where
  pub q : Option Text
  pub is_active : Option Bool

-- `IClassRepository`
pub record ClassRepository (S : Type 0) : Type 0 where
  pub find_by_id : Text → Action S (Option Class)
  pub find_by_leader_id : Text → Action S (Option Class)
  pub list : ListClassesFilter → PageInfo → Action S (Paginated Class)
  pub create : CreateClassInput → Action S Class
  pub update : Text → UpdateClassInput → Action S Class
  pub delete : Text → Action S (Unit {0})
  pub exists : Text → Action S Bool

-- `IMemberRepository`
pub record MemberRepository (S : Type 0) : Type 0 where
  pub find_by_id : Text → Action S (Option Member)
  pub list_by_class : Text → ListMembersFilter → PageInfo → Action S (Paginated Member)
  pub create : CreateMemberInput → Action S Member
  pub create_many : List CreateMemberInput → Action S ℕ
  pub update : Text → UpdateMemberInput → Action S Member
  pub set_active : Text → Bool → Action S Member

-- `IServantClassRepository`
pub record ServantClassRepository (S : Type 0) : Type 0 where
  pub is_assigned : Text → Text → Action S Bool
  pub assign : Text → Text → Action S (Unit {0})
  pub unassign : Text → Text → Action S (Unit {0})
  pub list_by_class : Text → Action S (List Text)
  pub list_by_user : Text → Action S (List Text)

-- `IUserDirectory`; a set is the list of its elements
pub record UserDirectory (S : Type 0) : Type 0 where
  pub exists : Text → Action S Bool
  pub exists_many : List Text → Action S (List Text)
  pub count_servants : List Text → Action S ℕ
