-- ===== src/Config/Origins.antt =====
-- The origins that the variable CORS_ORIGINS gives.
use mathlib.Core.List.{append-nil, reverse-append, reverse-reverse}
use taksees.Prelude.{
  ℕ, ◌≡◌, refl, sym, ap, ◌∙◌, inl, inr, Bool, true, false, not, List, [], ◌∷◌, ◌++◌, map, some,
  Text, codes, arith, All, all, is_empty, keep, join, trim, trim_start, is_space, is_empty-trim,
  split_on, reverse, all-reverse, is_empty-reverse, ==_iff, ◌==◌, split_on-append, split_on_plain,
  includes_unit, Bool-cases,
}
use taksees.Config.{origins, cors_origins}

-- No white space.
abbrev pub is_ink : ℕ → Bool
is_ink c = not (is_space c)

-- An origin: some text without commas and without white space.
abbrev pub IsOrigin : Text → Type 0
IsOrigin s = (is_empty s ≡ false) × (includes_unit s b',' ≡ false) × (all is_ink s ≡ true)

-- The pieces between the commas of a text, and the origins that one means by them: a piece is
-- blank, or an origin with white space around it.
pub data Means : List Text → List Text → Type 0 where
  none_left : Means [] []
  blank :
      (gap : Text) {pieces list : List Text}
      → all is_space gap ≡ true
      → Means pieces list
      → Means (gap ∷ pieces) list
  means :
      (before origin after : Text) {pieces list : List Text}
      → all is_space before ≡ true
      → IsOrigin origin
      → all is_space after ≡ true
      → Means pieces list
      → Means ((before ++ (origin ++ after)) ∷ pieces) (origin ∷ list)

trim_start-append :
    (a o r : Text)
    → all is_space a ≡ true
    → is_empty o ≡ false
    → all is_ink o ≡ true
    → trim_start (a ++ (o ++ r)) ≡ o ++ r
trim_start-append [] [] r gap given ink = cc
trim_start-append [] (c ∷ o) r gap given ink =
    let e : is_space c ≡ false = ground arith in rw e refl
trim_start-append (c ∷ a) o r gap given ink =
    let e : is_space c ≡ true = ground arith in
    rw e (trim_start-append a o r (ground arith) given ink)

trim-padded :
    (a o b : Text)
    → all is_space a ≡ true
    → is_empty o ≡ false
    → all is_ink o ≡ true
    → all is_space b ≡ true
    → trim (a ++ (o ++ b)) ≡ o
unfolding trim
trim-padded a o b before given ink after =
    let inner : trim_start (reverse b ++ (reverse o ++ [])) ≡ reverse o ++ [] =
      trim_start-append (reverse b) (reverse o) [] (all-reverse is_space b ∙ after)
        (is_empty-reverse o ∙ given) (all-reverse is_ink o ∙ ink) in
    ap (λ s. reverse (trim_start (reverse s))) (trim_start-append a o b before given ink)
    ∙ ap (λ s. reverse (trim_start s))
        (reverse-append o b ∙ ap (λ s. reverse b ++ s) (sym (append-nil (reverse o))))
    ∙ ap reverse (inner ∙ append-nil (reverse o))
    ∙ reverse-reverse o

no_comma-append :
    (s t : Text)
    → includes_unit s b',' ≡ false
    → includes_unit t b',' ≡ false
    → includes_unit (s ++ t) b',' ≡ false
no_comma-append [] t h k = k
no_comma-append (c ∷ s) t h k = ground (arith, no_comma-append s t)

pub comma-not_space : is_space b',' ≡ false
unfolding is_space
comma-not_space = refl

blank-no_comma : (s : Text) → all is_space s ≡ true → includes_unit s b',' ≡ false
blank-no_comma [] h = refl
blank-no_comma (c ∷ s) h = elim (Bool-cases (c == b',')) [
  | inl same ↦
      let e : c ≡ b',' = (==_iff c b',').0 same in
      let space : is_space c ≡ true = ground arith in
      cc (sym space ∙ ap is_space e ∙ comma-not_space)
  | inr other ↦ rw other (blank-no_comma s (ground arith))
]

pieces-plain :
    {pieces list : List Text}
    → Means pieces list
    → All (λ piece. includes_unit piece b',' ≡ false) pieces
pieces-plain none_left = tt
pieces-plain (blank gap g m) = (blank-no_comma gap g, pieces-plain m)
pieces-plain (means a o b before (_, plain, _) after m) = (
  no_comma-append a (o ++ b) (blank-no_comma a before)
      (no_comma-append o b plain (blank-no_comma b after)),
  pieces-plain m,
)

-- The two filters of `corsOrigins` on the pieces.
kept : List Text → List Text
kept pieces = keep (λ s. not (is_empty s)) (map trim pieces)

kept-Means : {pieces list : List Text} → Means pieces list → kept pieces ≡ list
unfolding kept
kept-Means none_left = refl
kept-Means (blank gap g m) =
    let e : is_empty (trim gap) ≡ true = is_empty-trim gap ∙ g in rw e (kept-Means m)
kept-Means (means a o b before (given, _, ink) after m) =
    rw (trim-padded a o b before given ink after, given) (ap (λ l. o ∷ l) (kept-Means m))

split_on-join :
    (t : Text) (ts : List Text)
    → All (λ piece. includes_unit piece b',' ≡ false) (t ∷ ts)
    → split_on b',' (join (codes ",") (t ∷ ts)) ≡ t ∷ ts
unfolding join
split_on-join t [] (plain, _) = split_on_plain b',' t plain
split_on-join t (u ∷ ts) (plain, h) =
    split_on-append b',' t (join (codes ",") (u ∷ ts)) plain
    ∙ ap (λ more. t ∷ more) (split_on-join u ts h)

origins-Means :
    (piece : Text) (pieces : List Text) {list : List Text}
    → Means (piece ∷ pieces) list
    → origins (join (codes ",") (piece ∷ pieces)) ≡ list
unfolding origins kept
origins-Means piece pieces m = ap kept (split_on-join piece pieces (pieces-plain m)) ∙ kept-Means m

is_nil : (s : Text) → is_empty s ≡ true → s ≡ []
is_nil [] h = refl
is_nil (c ∷ s) h = cc

origins_nil : origins [] ≡ []
unfolding origins split_on trim
origins_nil = refl

-- CORS_ORIGINS gives the origins that it means: of the pieces between its commas, those that hold
-- an origin give it without the white space around it, in order, and those that are blank give
-- nothing.
pub cors_origins-Means :
    (pieces list : List Text)
    → Means pieces list
    → cors_origins (some (join (codes ",") pieces)) ≡ list
unfolding cors_origins join
cors_origins-Means _ _ none_left = refl
cors_origins-Means (piece ∷ pieces) list m =
    elim (Bool-cases (is_empty (join (codes ",") (piece ∷ pieces)))) [
      | inr given ↦ rw given (origins-Means piece pieces m)
      | inl void ↦ rw void (
          sym origins_nil
          ∙ ap origins (sym (is_nil (join (codes ",") (piece ∷ pieces)) void))
          ∙ origins-Means piece pieces m)
    ]
