-- ===== src/Storage/Path/Split.antt =====
-- Splitting at slashes undoes joining.
use taksees.Prelude.{
  ℕ, ◌≡◌, ◌≢◌, refl, ap, ap₂, ◌∙◌, Bool, List, [], ◌∷◌, ◌++◌, Text, arith, ◌==◌, All, join,
  Bool-cases, inl, inr,
}
use taksees.Storage.Path.{cons_head, split, walk, step, slash}
use taksees.Storage.Path.Walk.{NoSlash}

cons_head-append :
    (c : ℕ) (ps qs : List Text) → ps ≢ [] → cons_head c (ps ++ qs) ≡ cons_head c ps ++ qs
cons_head-append c [] qs h = absurd (h refl)
cons_head-append c (p ∷ ps) qs h = refl

cons_head-ne-nil : (c : ℕ) (ps : List Text) → cons_head c ps ≢ []
cons_head-ne-nil c [] e = cc
cons_head-ne-nil c (p ∷ ps) e = cc

split-ne-nil : (s : Text) → split s ≢ []
unfolding split
split-ne-nil [] e = cc
split-ne-nil (c ∷ s) e = elim (Bool-cases (c == b'/')) [
  | inl sep ↦ ground arith
  | inr plain ↦ cons_head-ne-nil c (split s) (rw plain at e)
]

-- A slash ends a part.
pub split-append_slash : (s t : Text) → split (s ++ b'/' ∷ t) ≡ split s ++ split t
unfolding split
split-append_slash [] t = refl
split-append_slash (c ∷ s) t =
    ground (arith, split-append_slash s t, cons_head-append c (split s) (split t) (split-ne-nil s))

cons_head-NoSlash :
    (c : ℕ) (ps : List Text) → c ≢ b'/' → All NoSlash ps → All NoSlash (cons_head c ps)
cons_head-NoSlash c [] h k = ((h, tt), tt)
cons_head-NoSlash c (p ∷ ps) h (k, ks) = ((h, k), ks)

pub split-NoSlash : (s : Text) → All NoSlash (split s)
unfolding split
split-NoSlash [] = (tt, tt)
split-NoSlash (c ∷ s) = elim (Bool-cases (c == b'/')) [
  | inl sep ↦ rw sep (tt, split-NoSlash s)
  | inr plain ↦ rw plain (cons_head-NoSlash c (split s) (λ e. ground arith) (split-NoSlash s))
]

split_of_NoSlash : (s : Text) → NoSlash s → split s ≡ s ∷ []
unfolding split
split_of_NoSlash [] h = refl
split_of_NoSlash (c ∷ s) (n, h) = ground (arith, split_of_NoSlash s h)

split-join :
    (p : Text) (ps : List Text) → All NoSlash (p ∷ ps) → split (join slash (p ∷ ps)) ≡ p ∷ ps
unfolding join
split-join p [] (h, _) = split_of_NoSlash p h
split-join p (q ∷ ps) (h, hs) =
    split-append_slash p (join slash (q ∷ ps))
    ∙ ap₂ ◌++◌ (split_of_NoSlash p h) (split-join q ps hs)

-- Walking over the split of a join is walking over the parts.
pub walk-split-join :
    (above : Bool) (stack parts : List Text)
    → All NoSlash parts
    → walk above stack (split (join slash parts)) ≡ walk above stack parts
walk-split-join above stack [] h = unfold join split walk step in refl
walk-split-join above stack (p ∷ ps) h = ap (walk above stack) (split-join p ps h)
