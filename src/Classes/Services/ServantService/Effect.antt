-- ===== src/Classes/Services/ServantService/Effect.antt =====
-- What `assign` and `unassign` do to the mapping, when no other request writes to it.
use taksees.Prelude.{
  ℕ, ◌+◌, ◌≡◌, refl, sym, subst, ◌∙◌, Bool, true, false, not, ◌&&◌, ◌||◌, List, [], ◌∷◌, Text,
  arith, length, map, includes, ◌===◌, ===_iff, ===_self, inl, inr, Bool-cases,
}
use taksees.Errors.{ok, throws, Exception}
use taksees.Effects.{then_do-ok, outcome_cases}
use taksees.Classes.Interfaces.{ClassRepository, ServantClassRepository, UserDirectory}
use taksees.Classes.Services.MemberService.{check_class}
use taksees.Classes.Services.ServantService.{
  AssignResult, missing_users, check_missing, is_duplicate, existing_flags, on_rejected, try_assign,
  count, assign_loop, assign, unassign_if, unassign,
}
use taksees.Classes.Services.ServantService.Counts.{assign-Assigned, check_class-ok}

-- What the mapping's repository is documented to do, over a table of pairs of a user and a class: a
-- row is there or not, a key holds one row, and a call that is rejected writes nothing.
pub record IsMapping {S : Type 0} (mapping : ServantClassRepository S) : Type 0 where
  pub row : S → Text → Text → Bool
  pub is_assigned_lem :
      (user class : Text) (s : S) → mapping.is_assigned user class s ≡ (ok (row s user class), s)
  pub row-assign :
      (user class : Text) (s t : S)
      → mapping.assign user class s ≡ (ok tt, t)
      → (v d : Text) → row t v d ≡ (row s v d || (user === v && class === d))
  pub assign-throws :
      (user class : Text) (s t : S) (e : Exception)
      → mapping.assign user class s ≡ (throws e, t)
      → t ≡ s
  pub assign-duplicate :
      (user class : Text) (s t : S) (e : Exception)
      → mapping.assign user class s ≡ (throws e, t)
      → is_duplicate e ≡ true
      → row s user class ≡ true
  pub row-unassign :
      (user class : Text) (s t : S)
      → mapping.unassign user class s ≡ (ok tt, t)
      → (v d : Text) → row t v d ≡ (row s v d && not (user === v && class === d))

-- The classes and the users that the lookups find, which no other request changes meanwhile.
pub record IsFixed {S : Type 0} (classes : ClassRepository S) (users : UserDirectory S)
    : Type 0 where
  pub is_class : Text → Bool
  pub is_user : Text → Bool
  pub exists_lem : (id : Text) (s : S) → classes.exists id s ≡ (ok (is_class id), s)
  -- the set of the known ones among `ids`
  pub known : List Text → List Text
  pub includes-known :
      (ids : List Text) (v : Text) → includes (known ids) v ≡ (includes ids v && is_user v)
  pub exists_many_lem : (ids : List Text) (s : S) → users.exists_many ids s ≡ (ok (known ids), s)

-- `a` or, at the pair itself, `true`: nothing new if the pair is there.
or_there :
    (row : Text → Text → Bool) (user class v d : Text)
    → row user class ≡ true
    → row v d ≡ (row v d || (user === v && class === d))
or_there row user class v d h = elim (Bool-cases (user === v && class === d)) [
  | inl e ↦
      let same_user : user ≡ v = (===_iff user v).0 (ground arith) in
      let same_class : class ≡ d = (===_iff class d).0 (ground arith) in
      rw (sym same_user, sym same_class, h) refl
  | inr e ↦ rw e (ground arith)
]

and_not_there :
    (row : Text → Text → Bool) (user class v d : Text)
    → row user class ≡ false
    → row v d ≡ (row v d && not (user === v && class === d))
and_not_there row user class v d h = elim (Bool-cases (user === v && class === d)) [
  | inl e ↦
      let same_user : user ≡ v = (===_iff user v).0 (ground arith) in
      let same_class : class ≡ d = (===_iff class d).0 (ground arith) in
      rw (sym same_user, sym same_class, h) refl
  | inr e ↦ rw e (ground arith)
]

module _ {S : Type 0} (classes : ClassRepository S) (mapping : ServantClassRepository S)
    (users : UserDirectory S) (lawful : IsMapping mapping) where
  -- The flags that are set stand beside users that the class has.
  abbrev Agrees : S → Text → List Text → List Bool → Type 0
  Agrees s class [] flags = Unit
  Agrees s class (id ∷ ids) [] = Unit
  Agrees s class (id ∷ ids) (flag ∷ flags) =
      (flag ≡ true → lawful.row s id class ≡ true) × Agrees s class ids flags

  Agrees-nil : (s : S) (class : Text) (ids : List Text) → Agrees s class ids []
  Agrees-nil s class [] = tt
  Agrees-nil s class (id ∷ ids) = tt

  Agrees-mono :
      (s t : S) (class : Text) (ids : List Text) (flags : List Bool)
      → ((v : Text) → lawful.row s v class ≡ true → lawful.row t v class ≡ true)
      → Agrees s class ids flags
      → Agrees t class ids flags
  Agrees-mono s t class [] flags h _ = tt
  Agrees-mono s t class (id ∷ ids) [] h _ = tt
  Agrees-mono s t class (id ∷ ids) (flag ∷ flags) h (here, rest) =
      (λ set. h id (here set), Agrees-mono s t class ids flags h rest)

  existing_flags_read :
      (class : Text) (ids : List Text) (s : S)
      → existing_flags classes mapping users class ids s
        ≡ (ok (map (λ id. lawful.row s id class) ids), s)
  unfolding existing_flags
  existing_flags_read class [] s = refl
  existing_flags_read class (id ∷ ids) s =
      rw (lawful.is_assigned_lem id class s, existing_flags_read class ids s) refl

  Agrees-map :
      (s : S) (class : Text) (ids : List Text)
      → Agrees s class ids (map (λ id. lawful.row s id class) ids)
  Agrees-map s class [] = tt
  Agrees-map s class (id ∷ ids) = (λ h. h, Agrees-map s class ids)

  row-try_assign :
      (class id : Text) (s t : S) (b : Bool)
      → try_assign classes mapping users class id s ≡ (ok b, t)
      → (v d : Text) → lawful.row t v d ≡ (lawful.row s v d || (id === v && class === d))
  unfolding try_assign on_rejected
  row-try_assign class id s t b h v d = elim (outcome_cases (mapping.assign id class s)) [
    | inl (_, u, e) ↦
        let same : t ≡ u = cc (rw e at h) in rw same (lawful.row-assign id class s u e v d)
    | inr (err, u, e) ↦ elim (Bool-cases (is_duplicate err)) [
      | inl dup ↦
          let same : t ≡ u = cc (rw (e, dup) at h) in
          rw (same, lawful.assign-throws id class s u err e)
            (or_there (lawful.row s) id class v d (lawful.assign-duplicate id class s u err e dup))
      | inr other ↦ cc (rw (e, other) at h)
    ]
  ]

  abbrev RowAfter : S → S → Text → List Text → Type 0
  RowAfter s t class ids =
      (v d : Text) → lawful.row t v d ≡ (lawful.row s v d || (includes ids v && class === d))

  -- One more user in front, by the effect of its own step and of the steps for the others.
  row-step :
      (class id : Text) (ids : List Text) (s u t : S)
      → ((v d : Text) → lawful.row u v d ≡ (lawful.row s v d || (id === v && class === d)))
      → RowAfter u t class ids
      → RowAfter s t class (id ∷ ids)
  row-step class id ids s u t first rest v d = ground (arith, first v d, rest v d)

  row-assign_loop :
      (class : Text) (ids : List Text) (flags : List Bool) (r r' : AssignResult) (s t : S)
      → Agrees s class ids flags
      → assign_loop classes mapping users class ids flags r s ≡ (ok r', t)
      → RowAfter s t class ids
  unfolding assign_loop
  row-assign_loop class [] flags r r' s t _ h =
      let same : t ≡ s = cc h in λ v d. rw same (ground arith)
  row-assign_loop class (id ∷ ids) [] r r' s t _ h =
      let (new, u, e, rest) = then_do-ok (try_assign classes mapping users class id s) _ h in
      row-step class id ids s u t (row-try_assign class id s u new e)
        (row-assign_loop class ids [] (count new r) r' u t (Agrees-nil u class ids) rest)
  row-assign_loop class (id ∷ ids) (true ∷ flags) r r' s t (here, agrees) h =
      row-step class id ids s s t (λ v d. or_there (lawful.row s) id class v d (here refl))
        (row-assign_loop class ids flags (count false r) r' s t agrees h)
  row-assign_loop class (id ∷ ids) (false ∷ flags) r r' s t (_, agrees) h =
      let (new, u, e, rest) = then_do-ok (try_assign classes mapping users class id s) _ h in
      let first = row-try_assign class id s u new e in
      row-step class id ids s u t first (
        row-assign_loop class ids flags (count new r) r' u t
          (Agrees-mono s u class ids flags (λ v there. ground (arith, first v class)) agrees) rest)

  assign_loop-all_set :
      (class : Text) (ids : List Text) (a n total : ℕ) (s : S)
      → ((v : Text) → includes ids v ≡ true → lawful.row s v class ≡ true)
      → total ≡ n + length ids
      → assign_loop classes mapping users class ids
          (map (λ id. lawful.row s id class) ids)
          (record { assigned = a; already_assigned = n })
          s
        ≡ (ok (record { assigned = a; already_assigned = total }), s)
  unfolding assign_loop
  assign_loop-all_set class [] a n total s h e = rw e (ground arith)
  assign_loop-all_set class (id ∷ ids) a n total s h e = rw (h id (rw (===_self id) refl)) (
      assign_loop-all_set class ids a (n + 1) total s (λ v there. h v (ground arith))
        (omega (arith, e)))

  row-unassign_if :
      (class user : Text) (s t : S)
      → unassign_if classes mapping users class user (lawful.row s user class) s ≡ (ok tt, t)
      → (v d : Text) → lawful.row t v d ≡ (lawful.row s v d && not (user === v && class === d))
  unfolding unassign_if
  row-unassign_if class user s t h v d = elim (Bool-cases (lawful.row s user class)) [
    | inl there ↦ lawful.row-unassign user class s t (rw there at h) v d
    | inr free ↦
        let same : t ≡ s = cc (rw free at h) in
        rw same (and_not_there (lawful.row s) user class v d free)
  ]

  module _ (fixed : IsFixed classes users) where
    -- While no other request changes the mapping, the classes or the users, an `assign` that
    -- succeeds sets the pairs of the given users and the class, and no other pair.
    pub assign_effect :
        (class : Text) (ids : List Text) (s t : S) (r : AssignResult)
        → assign classes mapping users class ids s ≡ (ok r, t)
        → (v d : Text) → lawful.row t v d ≡ (lawful.row s v d || (includes ids v && class === d))
    assign_effect class ids s t r h =
        let steps = assign-Assigned classes mapping users class ids s t r h in
        let to_class : steps.s₁ ≡ s = cc (steps.class_exists, fixed.exists_lem class s) in
        let to_users : steps.s₂ ≡ steps.s₁ =
          cc (steps.users_found, fixed.exists_many_lem ids steps.s₁) in
        let read = existing_flags_read class ids steps.s₂ in
        let to_flags : steps.s₃ ≡ steps.s₂ = cc (read, steps.flags_read) in
        let flags_are : steps.flags ≡ map (λ id. lawful.row steps.s₂ id class) ids =
          cc (read, steps.flags_read) in
        let agrees : Agrees steps.s₃ class ids steps.flags =
          rw (to_flags, flags_are) (Agrees-map steps.s₂ class ids) in
        subst (λ u. RowAfter u t class ids) (to_flags ∙ (to_users ∙ to_class))
          (row-assign_loop class ids steps.flags _ r steps.s₃ t agrees steps.looped)

    -- While no other request changes the mapping, the classes or the users, an `assign` that
    -- succeeded succeeds once more, counts every user as assigned already and writes nothing.
    pub assign_again :
        (class : Text) (ids : List Text) (s t : S) (r : AssignResult)
        → assign classes mapping users class ids s ≡ (ok r, t)
        → assign classes mapping users class ids t
          ≡ (ok (record { assigned = 0; already_assigned = length ids }), t)
    unfolding assign check_class check_missing
    assign_again class ids s t r h =
        let steps = assign-Assigned classes mapping users class ids s t r h in
        let there : fixed.is_class class ≡ true =
          cc (steps.class_exists, fixed.exists_lem class s) in
        let found : steps.known ≡ fixed.known ids =
          cc (steps.users_found, fixed.exists_many_lem ids steps.s₁) in
        let no_missing : missing_users (fixed.known ids) ids ≡ [] =
          cc (found, steps.none_missing) in
        rw
          (
            fixed.exists_lem class t,
            there,
            fixed.exists_many_lem ids t,
            no_missing,
            existing_flags_read class ids t,
          )
          (assign_loop-all_set class ids 0 0 (length ids) t
            (λ v given. ground (arith, assign_effect class ids s t r h v class, ===_self class))
            (omega arith))

    -- While no other request changes the mapping, the classes or the users, an `unassign` that
    -- succeeds clears the pair of the user and the class, and no other pair.
    pub unassign_effect :
        (class user : Text) (s t : S)
        → unassign classes mapping users class user s ≡ (ok tt, t)
        → (v d : Text) → lawful.row t v d ≡ (lawful.row s v d && not (user === v && class === d))
    unfolding unassign
    unassign_effect class user s t h =
        let (_, u, c, h₁) =
          then_do-ok (check_class class (fixed.is_class class) s) _
            (rw (fixed.exists_lem class s) at h) in
        let (_, same) = check_class-ok classes mapping users class (fixed.is_class class) s u c in
        row-unassign_if class user s t (rw (same, lawful.is_assigned_lem user class s) at h₁)
