-- ===== src/Storage/Path/Walk.antt =====
-- Walks over path parts: on names they only push, and a climb above the start shows at the bottom.
use taksees.Prelude.{
  ℕ, zero, suc, ◌≡◌, ◌≢◌, refl, sym, ap, ◌∙◌, Bool, true, false, ◌||◌, List, [], ◌∷◌, ◌++◌, Text,
  arith, ◌===◌, ===_iff, ===_self, if◌then◌else◌, is_empty, is_empty_iff, length, All, Bool-cases,
  inl, inr, ◌⊎◌,
}
use mathlib.Core.List.{reverse_aux}
use taksees.Storage.Path.{dot, dot_dot, climb, step, walk}

abbrev pub NoSlash : Text → Type 0
NoSlash = All (λ c. c ≢ b'/')

-- A part that names a file or a directory: neither empty, nor `.` or `..`, and without a slash.
abbrev pub IsName : Text → Type 0
IsName part = (part ≢ []) × (part ≢ dot) × (part ≢ dot_dot) × NoSlash part

-- Whether a walk that starts `depth` directories below a point stays at or below that point.
unfoldable pub stays_below : ℕ → List Text → Bool
stays_below depth [] = true
stays_below depth (part ∷ parts) =
    let same = stays_below depth parts in
    let deeper = stays_below (suc depth) parts in
    let higher : Bool = elim depth [ zero ↦ false | suc d ↦ stays_below d parts ] in
    if is_empty part || part === dot then same else if part === dot_dot then higher else deeper

pub walk-append :
    (above : Bool) (stack xs ys : List Text)
    → walk above stack (xs ++ ys) ≡ walk above (walk above stack xs) ys
unfolding walk
walk-append above stack [] ys = refl
walk-append above stack (x ∷ xs) ys = walk-append above (step above stack x) xs ys

step_of_name :
    (above : Bool) (stack : List Text) (part : Text)
    → IsName part
    → step above stack part ≡ part ∷ stack
unfolding step
step_of_name above stack part h =
    ground (arith, is_empty_iff part, ===_iff part dot, ===_iff part dot_dot)

pub walk_of_names :
    (above : Bool) (stack parts : List Text)
    → All IsName parts
    → walk above stack parts ≡ reverse_aux parts stack
unfolding walk
walk_of_names above stack [] h = refl
walk_of_names above stack (part ∷ parts) (n, h) =
    rw (step_of_name above stack part n) (walk_of_names above (part ∷ stack) parts h)

-- A `..` at the bottom of the stack stays there.
step-sunk :
    (stack : List Text) (part : Text)
    → step true (stack ++ dot_dot ∷ []) part ≡ step true stack part ++ dot_dot ∷ []
unfolding step climb
step-sunk [] part = ground (arith, ===_iff dot_dot dot_dot)
step-sunk (top ∷ stack) part = ground arith

walk-sunk :
    (stack parts : List Text)
    → walk true (stack ++ dot_dot ∷ []) parts ≡ walk true stack parts ++ dot_dot ∷ []
unfolding walk
walk-sunk stack [] = refl
walk-sunk stack (part ∷ parts) =
    ap (λ s. walk true s parts) (step-sunk stack part) ∙ walk-sunk (step true stack part) parts

-- The three kinds of parts.
part_cases :
    (part : Text)
    → NoSlash part
    → ((is_empty part || part === dot) ≡ true) ⊎ (part ≡ dot_dot) ⊎ IsName part
part_cases part n = elim (Bool-cases (is_empty part || part === dot)) [
  | inl skipped ↦ inl skipped
  | inr kept ↦ elim (Bool-cases (part === dot_dot)) [
    | inl up ↦ inr (inl ((===_iff part dot_dot).0 up))
    | inr other ↦
        inr (inr (ground (arith, is_empty_iff part, ===_iff part dot, ===_iff part dot_dot)))
  ]
]

module _ (part : Text) (parts : List Text) (skipped : (is_empty part || part === dot) ≡ true) where
  step_skip : (above : Bool) (stack : List Text) → step above stack part ≡ stack
  unfolding step
  step_skip above stack = rw skipped

  stays_skip : (d : ℕ) → stays_below d (part ∷ parts) ≡ stays_below d parts
  unfolding stays_below
  stays_skip d = rw skipped

dot_dot_kept : (is_empty dot_dot || dot_dot === dot) ≡ false
unfolding ◌===◌
dot_dot_kept = refl

step_up :
    (above : Bool) (top : Text) (stack : List Text)
    → IsName top
    → step above (top ∷ stack) dot_dot ≡ stack
unfolding step climb
step_up above top stack h =
    rw (dot_dot_kept, ===_self dot_dot) (ground (arith, ===_iff top dot_dot))

step_above : step true [] dot_dot ≡ dot_dot ∷ []
unfolding step climb
step_above = rw (dot_dot_kept, ===_self dot_dot)

stays_up_zero : (parts : List Text) → stays_below zero (dot_dot ∷ parts) ≡ false
unfolding stays_below
stays_up_zero parts = rw (dot_dot_kept, ===_self dot_dot)

stays_up : (d : ℕ) (parts : List Text) → stays_below (suc d) (dot_dot ∷ parts) ≡ stays_below d parts
unfolding stays_below
stays_up d parts = rw (dot_dot_kept, ===_self dot_dot)

stays_name :
    (d : ℕ) (part : Text) (parts : List Text)
    → IsName part
    → stays_below d (part ∷ parts) ≡ stays_below (suc d) parts
unfolding stays_below
stays_name d part parts h =
    ground (arith, is_empty_iff part, ===_iff part dot, ===_iff part dot_dot)

below_up :
    (above : Bool) (parts : List Text)
    → ((s : List Text)
        → All IsName s
        → stays_below (length s) parts ≡ true
        → All IsName (walk above s parts) × (walk above s parts ≡ walk false s parts))
    → (stack : List Text) → All IsName stack
    → stays_below (length stack) (dot_dot ∷ parts) ≡ true
    → All IsName (walk above (step above stack dot_dot) parts)
      × (walk above (step above stack dot_dot) parts ≡ walk false (step false stack dot_dot) parts)
below_up above parts ih [] h e = cc (stays_up_zero parts)
below_up above parts ih (top ∷ stack) (n, h) e =
    rw (step_up above top stack n, step_up false top stack n)
      (ih stack h (sym (stays_up (length stack) parts) ∙ e))

-- A walk that stays below its start ends in names, whether or not climbs are kept.
pub walk_below :
    (above : Bool) (stack parts : List Text)
    → All IsName stack
    → All NoSlash parts
    → stays_below (length stack) parts ≡ true
    → All IsName (walk above stack parts) × (walk above stack parts ≡ walk false stack parts)
unfolding walk
walk_below above stack [] h n e = (h, refl)
walk_below above stack (part ∷ parts) h (n, ns) e = elim (part_cases part n) [
  | inl skipped ↦
      rw (step_skip part parts skipped above stack, step_skip part parts skipped false stack)
        (walk_below above stack parts h ns (sym (stays_skip part parts skipped _) ∙ e))
  | inr (inl up) ↦ rw up (
      below_up above parts (λ s k. walk_below above s parts k ns) stack h
        (ap (λ p. stays_below (length stack) (p ∷ parts)) (sym up) ∙ e))
  | inr (inr name) ↦
      rw (step_of_name above stack part name, step_of_name false stack part name)
        (walk_below above (part ∷ stack) parts (name, h) ns
          (sym (stays_name _ part parts name) ∙ e))
]

escapes_up :
    (parts : List Text)
    → ((s : List Text)
        → All IsName s
        → stays_below (length s) parts ≡ false
        → (rest : List Text) × (walk true s parts ≡ rest ++ dot_dot ∷ []))
    → (stack : List Text) → All IsName stack
    → stays_below (length stack) (dot_dot ∷ parts) ≡ false
    → (rest : List Text) × (walk true (step true stack dot_dot) parts ≡ rest ++ dot_dot ∷ [])
escapes_up parts ih [] h e = (walk true [] parts, rw step_above (walk-sunk [] parts))
escapes_up parts ih (top ∷ stack) (n, h) e =
    rw (step_up true top stack n) (ih stack h (sym (stays_up (length stack) parts) ∙ e))

-- A walk that leaves the place where it starts keeps a `..` at the bottom.
pub walk_escapes :
    (stack parts : List Text)
    → All IsName stack
    → All NoSlash parts
    → stays_below (length stack) parts ≡ false
    → (rest : List Text) × (walk true stack parts ≡ rest ++ dot_dot ∷ [])
unfolding walk
walk_escapes stack [] h n e = unfold stays_below in cc e
walk_escapes stack (part ∷ parts) h (n, ns) e = elim (part_cases part n) [
  | inl skipped ↦
      rw (step_skip part parts skipped true stack)
        (walk_escapes stack parts h ns (sym (stays_skip part parts skipped _) ∙ e))
  | inr (inl up) ↦ rw up (
      escapes_up parts (λ s k. walk_escapes s parts k ns) stack h
        (ap (λ p. stays_below (length stack) (p ∷ parts)) (sym up) ∙ e))
  | inr (inr name) ↦
      rw (step_of_name true stack part name)
        (walk_escapes (part ∷ stack) parts (name, h) ns (sym (stays_name _ part parts name) ∙ e))
]

step_up_none : step false [] dot_dot ≡ []
unfolding step climb
step_up_none = rw (dot_dot_kept, ===_self dot_dot)

names_up :
    (parts : List Text)
    → ((s : List Text) → All IsName s → All IsName (walk false s parts))
    → (stack : List Text) → All IsName stack
    → All IsName (walk false (step false stack dot_dot) parts)
names_up parts ih [] h = rw step_up_none (ih [] h)
names_up parts ih (top ∷ stack) (n, h) = rw (step_up false top stack n) (ih stack h)

-- Where climbs are dropped, the walk ends in names.
pub walk-names :
    (stack parts : List Text)
    → All IsName stack
    → All NoSlash parts
    → All IsName (walk false stack parts)
unfolding walk
walk-names stack [] h n = h
walk-names stack (part ∷ parts) h (n, ns) = elim (part_cases part n) [
  | inl skipped ↦ rw (step_skip part parts skipped false stack) (walk-names stack parts h ns)
  | inr (inl up) ↦ rw up (names_up parts (λ s k. walk-names s parts k ns) stack h)
  | inr (inr name) ↦
      rw (step_of_name false stack part name) (walk-names (part ∷ stack) parts (name, h) ns)
]
