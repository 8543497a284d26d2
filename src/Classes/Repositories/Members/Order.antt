-- ===== src/Classes/Repositories/Members/Order.antt =====
-- The order that the member repository asks for, and that it leaves one arrangement of rows without
-- ties.
use taksees.Prelude.{◌≡◌, refl, sym, ap₂, ◌∙◌, ◌⊎◌, inl, inr, true, false, List, [], ◌∷◌, Text, All}
use taksees.Classes.Entities.{MemberRow}
use taksees.Classes.Repositories.Paging.{Direction, asc, desc}
use taksees.Classes.Repositories.Members.{Column, by_active, by_full_name, OrderBy, order_by}

module _ {A : Type 0} where
  abbrev pub IsIn : A → List A → Type 0
  IsIn a [] = ⊥
  IsIn a (x ∷ xs) = (a ≡ x) ⊎ IsIn a xs

  abbrev pub IsDistinct : List A → Type 0
  IsDistinct [] = Unit
  IsDistinct (x ∷ xs) = (¬ IsIn x xs) × IsDistinct xs

  module _ (R : A → A → Type 0) where
    abbrev pub IsSorted : List A → Type 0
    IsSorted [] = Unit
    IsSorted (x ∷ xs) = All (R x) xs × IsSorted xs

  All-IsIn : (P : A → Type 0) (a : A) (xs : List A) → All P xs → IsIn a xs → P a
  All-IsIn P a [] h m = absurd m
  All-IsIn P a (x ∷ xs) (p, h) (inl e) = rw e p
  All-IsIn P a (x ∷ xs) (p, h) (inr m) = All-IsIn P a xs h m

  heads_agree :
      {R : A → A → Type 0} (x y : A) (xs ys : List A)
      → ((a b : A) → IsIn a (x ∷ xs) → IsIn b (x ∷ xs) → R a b → R b a → a ≡ b)
      → All (R x) xs
      → All (R y) ys
      → IsIn x (y ∷ ys)
      → IsIn y (x ∷ xs)
      → x ≡ y
  heads_agree x y xs ys apart above above' (inl e) back = e
  heads_agree x y xs ys apart above above' (inr m) (inl e) = sym e
  heads_agree x y xs ys apart above above' (inr m) (inr m') =
      apart x y (inl refl) (inr m') (All-IsIn _ y xs above m') (All-IsIn _ x ys above' m)

  -- The members of a tail, when the heads agree.
  tail_within :
      (x y : A) (xs ys : List A)
      → x ≡ y
      → ¬ IsIn x xs
      → ((a : A) → IsIn a (x ∷ xs) → IsIn a (y ∷ ys))
      → (a : A) → IsIn a xs
      → IsIn a ys
  tail_within x y xs ys e fresh within a m = elim (within a (inr m)) [
    | inl same ↦ absurd (fresh (rw (same ∙ sym e) at m))
    | inr rest ↦ rest
  ]

  -- Two sorted lists without repetitions that have the same members are equal, if no two of these
  -- may come in either order.
  pub sorted_unique :
      {R : A → A → Type 0} (xs ys : List A)
      → IsSorted R xs
      → IsSorted R ys
      → IsDistinct xs
      → IsDistinct ys
      → ((a : A) → IsIn a xs → IsIn a ys)
      → ((a : A) → IsIn a ys → IsIn a xs)
      → ((a b : A) → IsIn a xs → IsIn b xs → R a b → R b a → a ≡ b)
      → xs ≡ ys
  sorted_unique [] [] _ _ _ _ _ _ _ = refl
  sorted_unique [] (y ∷ ys) _ _ _ _ _ back _ = absurd (back y (inl refl))
  sorted_unique (x ∷ xs) [] _ _ _ _ within _ _ = absurd (within x (inl refl))
  sorted_unique (x ∷ xs) (y ∷ ys) (above, s) (above', s') (fresh, d) (fresh', d') within back
        apart =
      let e : x ≡ y =
        heads_agree x y xs ys apart above above' (within x (inl refl)) (back y (inl refl)) in
      ap₂ ◌∷◌ e (
        sorted_unique xs ys s s' d d' (tail_within x y xs ys e fresh within)
          (tail_within y x ys xs (sym e) fresh' back) (λ a b m m'. apart a b (inr m) (inr m')))

-- `less` is the collation of the database.
module _ (less : Text → Text → Type 0) where
  -- The one row comes strictly before the other by a column in a direction.
  abbrev Above : Column → Direction → MemberRow → MemberRow → Type 0
  Above by_active asc a b = (a.is_active ≡ false) × (b.is_active ≡ true)
  Above by_active desc a b = (a.is_active ≡ true) × (b.is_active ≡ false)
  Above by_full_name asc a b = less a.full_name b.full_name
  Above by_full_name desc a b = less b.full_name a.full_name

  abbrev Level : Column → MemberRow → MemberRow → Type 0
  Level by_active a b = a.is_active ≡ b.is_active
  Level by_full_name a b = a.full_name ≡ b.full_name

  -- A row that may come before another one, by the columns of `orderBy` from the first to the last.
  abbrev pub MayPrecede : OrderBy → MemberRow → MemberRow → Type 0
  MayPrecede [] a b = Unit
  MayPrecede ((column, direction) ∷ more) a b =
      Above column direction a b ⊎ (Level column a b × MayPrecede more a b)

  -- By the order that the repository asks for, only rows with one activity and one name may come
  -- in either order.
  pub MayPrecede-both :
      ((s t : Text) → less s t → less t s → ⊥)
      → (a b : MemberRow) → MayPrecede order_by a b
      → MayPrecede order_by b a
      → (a.is_active ≡ b.is_active) × (a.full_name ≡ b.full_name)
  MayPrecede-both asym a b (inl (on, off)) (inl (on', off')) = cc
  MayPrecede-both asym a b (inl (on, off)) (inr (same, _)) = cc
  MayPrecede-both asym a b (inr (same, _)) (inl (on, off)) = cc
  MayPrecede-both asym a b (inr (same, inl lt)) (inr (_, inl gt)) = absurd (asym _ _ lt gt)
  MayPrecede-both asym a b (inr (same, inl lt)) (inr (_, inr (e, _))) =
      absurd (asym a.full_name a.full_name (rw e at lt) (rw e at lt))
  MayPrecede-both asym a b (inr (same, inr (e, _))) later = (same, e)
