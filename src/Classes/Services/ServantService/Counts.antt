-- ===== src/Classes/Services/ServantService/Counts.antt =====
-- What `assign` counts and what it rejects, whatever the repositories do.
use taksees.Prelude.{
  ℕ, ◌+◌, ◌≡◌, refl, sym, ap, ◌∙◌, Bool, true, false, List, [], ◌∷◌, ◌++◌, Text, arith, length, all,
  includes,
}
use taksees.Errors.{ok, throws, domain, servant_must_be_a_user}
use taksees.Effects.{then_do-ok}
use taksees.Classes.Interfaces.{ClassRepository, ServantClassRepository, UserDirectory}
use taksees.Classes.Services.MemberService.{check_class}
use taksees.Classes.Services.ServantService.{
  AssignResult, missing_users, check_missing, existing_flags, try_assign, count, assign_loop,
  assign,
}

abbrev total : AssignResult → ℕ
total r = r.assigned + r.already_assigned

total-count : (b : Bool) (r : AssignResult) → total (count b r) ≡ total r + 1
total-count true r = omega arith
total-count false r = omega arith

missing-first :
    (known before : List Text) (id : Text) (after : List Text)
    → all (includes known) before ≡ true
    → includes known id ≡ false
    → missing_users known (before ++ id ∷ after) ≡ id ∷ missing_users known after
unfolding missing_users
missing-first known [] id after h new = rw new
missing-first known (u ∷ before) id after h new =
    ground (arith, missing-first known before id after)

module _ {S : Type 0} (classes : ClassRepository S) (mapping : ServantClassRepository S)
    (users : UserDirectory S) where
  total-assign_loop :
      (class_id : Text) (ids : List Text) (flags : List Bool) (r r' : AssignResult) (s t : S)
      → assign_loop classes mapping users class_id ids flags r s ≡ (ok r', t)
      → total r' ≡ total r + length ids
  unfolding assign_loop
  total-assign_loop class_id [] flags r r' s t h = ground arith
  total-assign_loop class_id (id ∷ ids) [] r r' s t h =
      let (new, u, _, rest) = then_do-ok (try_assign classes mapping users class_id id s) _ h in
      omega (arith, total-count new r, total-assign_loop class_id ids [] (count new r) r' u t rest)
  total-assign_loop class_id (id ∷ ids) (true ∷ flags) r r' s t h =
      omega (arith, total-assign_loop class_id ids flags (count false r) r' s t h)
  total-assign_loop class_id (id ∷ ids) (false ∷ flags) r r' s t h =
      let (new, u, _, rest) = then_do-ok (try_assign classes mapping users class_id id s) _ h in
      omega
        (arith, total-count new r, total-assign_loop class_id ids flags (count new r) r' u t rest)

  -- The steps of an `assign` that succeeds.
  pub record Assigned (class_id : Text) (ids : List Text) (s t : S) (r : AssignResult)
      : Type 0 where
    pub s₁ : S
    pub class_exists : classes.exists class_id s ≡ (ok true, s₁)
    pub known : List Text
    pub s₂ : S
    pub users_found : users.exists_many ids s₁ ≡ (ok known, s₂)
    pub none_missing : missing_users known ids ≡ []
    pub flags : List Bool
    pub s₃ : S
    pub flags_read : existing_flags classes mapping users class_id ids s₂ ≡ (ok flags, s₃)
    pub looped :
        assign_loop classes mapping users class_id ids flags
          (record { assigned = 0; already_assigned = 0 })
          s₃
        ≡ (ok r, t)

  pub check_class-ok :
      (class_id : Text) (b : Bool) (s t : S)
      → check_class class_id b s ≡ (ok tt, t)
      → (b ≡ true) × (t ≡ s)
  unfolding check_class
  check_class-ok class_id true s t h = (refl, ground arith)
  check_class-ok class_id false s t h = cc

  check_missing-ok :
      (ids : List Text) (s t : S) → check_missing ids s ≡ (ok tt, t) → (ids ≡ []) × (t ≡ s)
  unfolding check_missing
  check_missing-ok [] s t h = (refl, ground arith)
  check_missing-ok (id ∷ ids) s t h = cc

  pub assign-Assigned :
      (class_id : Text) (ids : List Text) (s t : S) (r : AssignResult)
      → assign classes mapping users class_id ids s ≡ (ok r, t)
      → Assigned class_id ids s t r
  unfolding assign
  assign-Assigned class_id ids s t r h =
      let (b, s₁, e₁, h₁) = then_do-ok (classes.exists class_id s) _ h in
      let (_, s₁', c₁, h₂) = then_do-ok (check_class class_id b s₁) _ h₁ in
      let (is_known, same₁) = check_class-ok class_id b s₁ s₁' c₁ in
      let (known, s₂, e₂, h₃) = then_do-ok (users.exists_many ids s₁') _ h₂ in
      let (_, s₂', c₂, h₄) = then_do-ok (check_missing (missing_users known ids) s₂) _ h₃ in
      let (no_missing, same₂) = check_missing-ok (missing_users known ids) s₂ s₂' c₂ in
      let (flags, s₃, e₃, h₅) =
        then_do-ok (existing_flags classes mapping users class_id ids s₂') _ h₄ in
      record {
        s₁ = s₁;
        class_exists = cc (e₁, is_known);
        known = known;
        s₂ = s₂;
        users_found = ap (users.exists_many ids) (sym same₁) ∙ e₂;
        none_missing = no_missing;
        flags = flags;
        s₃ = s₃;
        flags_read = ap (existing_flags classes mapping users class_id ids) (sym same₂) ∙ e₃;
        looped = h₅;
      }

  -- Whatever the repositories answer, also while other requests run: an `assign` that succeeds has
  -- counted every user id once, as newly assigned or as assigned already.
  pub assign_counts :
      (class_id : Text) (ids : List Text) (s t : S) (r : AssignResult)
      → assign classes mapping users class_id ids s ≡ (ok r, t)
      → r.assigned + r.already_assigned ≡ length ids
  assign_counts class_id ids s t r h =
      let steps = assign-Assigned class_id ids s t r h in
      omega (arith, total-assign_loop class_id ids steps.flags _ r steps.s₃ t steps.looped)

  -- If the class is there and the directory knows the ids before `id` but not `id`, `assign` throws
  -- the error for `id` before the mapping is asked or written.
  pub assign_unknown_user :
      (class_id : Text) (before : List Text) (id : Text) (after known : List Text) (s s₁ s₂ : S)
      → classes.exists class_id s ≡ (ok true, s₁)
      → users.exists_many (before ++ id ∷ after) s₁ ≡ (ok known, s₂)
      → all (includes known) before ≡ true
      → includes known id ≡ false
      → assign classes mapping users class_id (before ++ id ∷ after) s
        ≡ (throws (domain (servant_must_be_a_user id)), s₂)
  unfolding assign check_class check_missing
  assign_unknown_user class_id before id after known s s₁ s₂ e₁ e₂ h new =
      rw (e₁, e₂, missing-first known before id after h new)
