-- ===== src/Validation/Laws/Types.antt =====
-- Parsed data have the types that the handlers rely on.
use taksees.Prelude.{
  ◌≡◌, refl, ap, ◌⊎◌, inl, inr, Bool, true, List, [], ◌∷◌, map, Option, none, some, Text, ◌===◌,
  includes, Bool-cases, suc, length, All,
}
use taksees.Classes.Level.{ClassLevel, level_name, class_levels}
use taksees.Classes.Interfaces.{Field}
use taksees.Classes.Interfaces
use taksees.Validation.{
  Json, undefined, null, text, Items, no_items, item, Format, bool, EachItem, count_items, Output,
}
use taksees.Validation.Dto.{class_level_schema}
use taksees.Validation.Decode.{
  as_text, as_flag, left_out, null_or, as_field, find_level, as_level, as_list,
}

-- Whatever `P` holds of, `read` takes apart.
abbrev pub Reads : {A : Type 0} → (Json → Type 0) → (Json → Option A) → Type 0
Reads {A} P read = (v : Json) → P v → (a : A) × (read v ≡ some a)

module _ {A : Type 0} (P : Json → Type 0) (read : Json → Option A) (reads : Reads P read) where
  left_out_present :
      (v : Json) (a : A) → read v ≡ some a → (o : Option A) × (left_out read v ≡ some o)
  left_out_present undefined a e = (none, refl)
  left_out_present _ a e = (some a, rw e refl)

  pub left_out-Reads : Reads (λ v. (v ≡ undefined) ⊎ P v) (left_out read)
  left_out-Reads v (inl e) = (none, rw e refl)
  left_out-Reads v (inr p) = let (a, e) = reads v p in left_out_present v a e

  null_or_present :
      (v : Json) (o : Option A)
      → left_out read v ≡ some o
      → (p : Option A) × (null_or read v ≡ some p)
  null_or_present null o e = (none, refl)
  null_or_present _ o e = (o, e)

  pub null_or-Reads : Reads (λ v. (v ≡ null) ⊎ ((v ≡ undefined) ⊎ P v)) (null_or read)
  null_or-Reads v (inl e) = (none, rw e refl)
  null_or-Reads v (inr p) = let (o, e) = left_out-Reads v p in null_or_present v o e

-- A list of items that `read` takes apart into values that `Q` holds of.
pub as_list-All :
    {A : Type 0} (P : Json → Type 0) (Q : A → Type 0) (read : Json → Option A)
    → ((v : Json) → P v → (a : A) × (read v ≡ some a) × Q a)
    → (vs : Items) → EachItem P vs
    → (list : List A) × (as_list read vs ≡ some list) × (length list ≡ count_items vs) × All Q list
as_list-All P Q read reads no_items h = ([], refl, refl, tt)
as_list-All P Q read reads (item v more) (p, h) =
    let (a, e, q) = reads v p in
    let (list, f, size, qs) = as_list-All P Q read reads more h in
    (a ∷ list, rw (e, f) refl, ap suc size, (q, qs))

as_field_present :
    (v : Json) (s : Text) → as_text v ≡ some s → (f : Field Text) × (as_field v ≡ some f)
as_field_present (text s) _ e = (_, refl)
as_field_present undefined s e = (_, refl)
as_field_present null s e = (_, refl)
as_field_present _ s e = cc

pub as_field-Reads :
    (P : Json → Type 0)
    → Reads P as_text
    → Reads (λ v. (v ≡ null) ⊎ ((v ≡ undefined) ⊎ P v)) as_field
as_field-Reads P reads v (inl e) = (Interfaces.null, rw e refl)
as_field-Reads P reads v (inr (inl e)) = (Interfaces.undefined, rw e refl)
as_field-Reads P reads v (inr (inr p)) = let (s, e) = reads v p in as_field_present v s e

find_level-includes :
    (levels : List ClassLevel) (s : Text)
    → includes (map level_name levels) s ≡ true
    → (level : ClassLevel) × (find_level levels s ≡ some level)
find_level-includes [] s h = cc
find_level-includes (level ∷ levels) s h = elim (Bool-cases (level_name level === s)) [
  | inl same ↦ (level, rw same refl)
  | inr other ↦ let (found, e) = find_level-includes levels s (rw other at h) in (found, rw other e)
]

pub string-Reads : {P : Text → Type 0} → Reads (λ v. (s : Text) × (v ≡ text s) × P s) as_text
string-Reads v (s, e, _) = (s, rw e refl)

module _ (matches : Format → Text → Bool) where
  pub bool-Reads : Reads (Output matches bool) as_flag
  bool-Reads v (b, e) = (b, rw e refl)

  pub level-Reads : Reads (Output matches class_level_schema) as_level
  level-Reads v (s, e, known) = rw e (find_level-includes class_levels s known)
