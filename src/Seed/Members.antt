-- ===== src/Seed/Members.antt =====
-- prisma/seed.ts: the members that the script creates.
pub mod Laws
use taksees.Prelude.{
  ℕ, zero, suc, ◌+◌, ◌%◌, List, [], ◌∷◌, ◌++◌, Option, none, some, Text, codes, map, length,
  to_string, pad_start,
}

-- A row of `createMany`.
pub record MemberRow : Type 0 where
  pub class_id : Text
  pub full_name : Text
  pub phone : Text

-- `sampleNames`
abbrev pub sample_names : List Text
sample_names = map codes (
    "Mariam" ∷ "John" ∷ "Sara" ∷ "David" ∷ "Nour" ∷ "Anton" ∷ "Lara" ∷ "Youssef" ∷ "Salma" ∷ "Mark"
    ∷ "Hala" ∷ "Kareem" ∷ "Lina" ∷ "Tomas" ∷ "Reem" ∷ "Hany" ∷ "Maya" ∷ "Adel" ∷ "Jana" ∷ "Fady"
    ∷ "Heba" ∷ "Nabil" ∷ "Rana" ∷ "Sami" ∷ "Dina" ∷ "Gaber" ∷ "Hagar" ∷ "Khalil" ∷ "Nada" ∷ "Wael"
    ∷ [])

-- `${names[i]}`
abbrev pub name_at : List Text → ℕ → Text
name_at [] i = codes "undefined"
name_at (name ∷ names) zero = name
name_at (name ∷ names) (suc i) = name_at names i

-- `makePhone(i)`
unfoldable pub make_phone : ℕ → Text
make_phone i = codes "+2012345" ++ pad_start 5 (to_string (67890 + i))

-- What the callback of `Array.from` returns when `nameIdx` is `index`: the name is made before the
-- increment and the phone after it.
unfoldable pub row_at : Text → ℕ → MemberRow
row_at class_id index = record {
  class_id = class_id;
  full_name = name_at sample_names (index % length sample_names) ++ (codes " " ++ to_string index);
  phone = make_phone (index + 1);
}

-- `Array.from({ length: count }, …)`
unfoldable pub rows_from : Text → ℕ → ℕ → List MemberRow
rows_from class_id index zero = []
rows_from class_id index (suc count) = row_at class_id index ∷ rows_from class_id (index + 1) count

-- An entry of `classAssignments`.
pub record Share : Type 0 where
  pub class_id : Text
  pub count : ℕ

-- The loop over `classAssignments`: the rows of each `createMany`, with `nameIdx` going on.
unfoldable pub batches : ℕ → List Share → List (List MemberRow)
batches index [] = []
batches index (share ∷ shares) =
    rows_from share.class_id index share.count ∷ batches (index + share.count) shares
