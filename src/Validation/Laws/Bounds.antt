-- ===== src/Validation/Laws/Bounds.antt =====
-- The bounds of the request schemas, and what they are for.
use taksees.Prelude.{
  ℕ, ◌≤◌, ◌≡◌, refl, ◌⊎◌, inl, inr, Bool, true, List, [], ◌∷◌, Option, some, Text, codes, arith,
  All, length, ◌===◌, Bool-cases, ===_iff, includes, false,
}
use taksees.Classes.Services.MemberInput.{RawMember}
use taksees.Classes.Controllers.{single, members, Query}
use taksees.Validation.{
  Json, undefined, has_only, names_of, no_members, entry, union, bool, enum, Members, Format, uuid,
  Output, member_at,
}
use taksees.Validation.Dto.{
  flag_of, single_member_fields, create_class_schema, update_class_schema,
  list_classes_query_schema, add_member_schema, single_member_schema, update_member_schema,
  list_members_query_schema, assign_servant_schema, page_schema, limit_schema,
}
use taksees.Validation.Decode.{
  as_text, as_number, as_flag, create_class_of, update_class_of, list_classes_of, single_member_of,
  add_member_of, update_member_of, list_members_of, assign_servant_of,
}
use taksees.Validation.Laws.Types.{
  Reads, left_out-Reads, null_or-Reads, as_list-All, as_field-Reads, string-Reads, bool-Reads,
  level-Reads,
}

module _ (matches : Format → Text → Bool) where
  pub create_class_of-Reads : Reads (Output matches create_class_schema) create_class_of
  unfolding create_class_of
  create_class_of-Reads v (ms, e, _, (name, (level, (leader, _)))) =
      let (n, p) = string-Reads _ name in
      let (l, q) = level-Reads matches _ level in
      let (i, r) = string-Reads _ leader in
      (record { name = n; level = l; leader_id = i }, rw (e, p, q, r) refl)

  pub update_class_of-Reads : Reads (Output matches update_class_schema) update_class_of
  unfolding update_class_of
  update_class_of-Reads v (_, (ms, e, _, (name, (level, (leader, _))))) =
      let (n, p) = left_out-Reads _ as_text string-Reads _ name in
      let (l, q) = left_out-Reads _ _ (level-Reads matches) _ level in
      let (i, r) = left_out-Reads _ as_text string-Reads _ leader in
      (record { name = n; level = l; leader_id = i }, rw (e, p, q, r) refl)

  page_read : (v : Json) → Output matches page_schema v → (n : ℕ) × (as_number v ≡ some n) × (1 ≤ n)
  page_read v (inl e) = (1, rw e refl, omega arith)
  page_read v (inr (inl (n, e, (least, _)))) = (n, rw e refl, least)
  page_read v (inr (inr (_, unbounded))) = cc

  limit_read :
      (v : Json)
      → Output matches limit_schema v
      → (n : ℕ) × (as_number v ≡ some n) × (1 ≤ n) × (n ≤ 100)
  limit_read v (inl e) = (20, rw e refl, omega arith, omega arith)
  limit_read v (inr (inl (n, e, (least, (most, _))))) = (n, rw e refl, least, most)
  limit_read v (inr (inr (_, unbounded))) = cc

  -- The query of a list, read and within its bounds.
  abbrev pub HasPage : {F : Type 0} → (Json → Option (Query F)) → Json → Type 0
  HasPage {F} read v =
      (q : Query F) × (read v ≡ some q) × (1 ≤ q.page) × (1 ≤ q.limit) × (q.limit ≤ 100)

  pub list_classes_page :
      (v : Json) → Output matches list_classes_query_schema v → HasPage list_classes_of v
  unfolding list_classes_of
  list_classes_page v (ms, e, _, (level, (leader, (page, (limit, _))))) =
      let (l, p) = left_out-Reads _ _ (level-Reads matches) _ level in
      let (i, q) = left_out-Reads _ as_text string-Reads _ leader in
      let (n, r, least) = page_read _ page in
      let (m, t, some_rows, few) = limit_read _ limit in
      (
        record { filter = record { level = l; leader_id = i }; page = n; limit = m },
        rw (e, p, q, r, t) refl,
        least,
        some_rows,
        few,
      )

  flag-Reads :
      Reads
        (λ v.
          (w : Json) × (Output matches (union bool (enum (codes "true" ∷ codes "false" ∷ []))) w)
          × (v ≡ flag_of w))
        as_flag
  flag-Reads v (w, inl (b, f), e) = (b, rw (e, f) refl)
  flag-Reads v (w, inr (s, f, _), e) = (s === codes "true", rw (e, f) refl)

  pub list_members_page :
      (v : Json) → Output matches list_members_query_schema v → HasPage list_members_of v
  unfolding list_members_of
  list_members_page v (ms, e, _, (q, (active, (page, (limit, _))))) =
      let (l, p) = left_out-Reads _ as_text string-Reads _ q in
      let (i, a) = left_out-Reads _ as_flag flag-Reads _ active in
      let (n, r, least) = page_read _ page in
      let (m, t, some_rows, few) = limit_read _ limit in
      (
        record { filter = record { q = l; is_active = i }; page = n; limit = m },
        rw (e, p, a, r, t) refl,
        least,
        some_rows,
        few,
      )

  single_member_of-Reads : Reads (Output matches single_member_schema) single_member_of
  unfolding single_member_of
  single_member_of-Reads v (ms, e, _, (name, (phone, (user, _)))) =
      let (n, p) = string-Reads _ name in
      let (l, q) = null_or-Reads _ as_text string-Reads _ phone in
      let (i, r) = null_or-Reads _ as_text string-Reads _ user in
      (record { full_name = n; phone = l; user_id = i }, rw (e, p, q, r) refl)

  pub update_member_of-Reads : Reads (Output matches update_member_schema) update_member_of
  unfolding update_member_of
  update_member_of-Reads v (_, (ms, e, _, (name, (phone, (active, _))))) =
      let (n, p) = left_out-Reads _ as_text string-Reads _ name in
      let (l, q) = as_field-Reads _ string-Reads _ phone in
      let (i, r) = left_out-Reads _ as_flag (bool-Reads matches) _ active in
      (record { full_name = n; phone = l; is_active = i }, rw (e, p, q, r) refl)

  members_no_key : includes (names_of single_member_fields) (codes "members") ≡ false
  unfolding ◌===◌
  members_no_key = refl

  -- An object with the keys of a single member has no key `members`.
  members_absent :
      (ms : Members)
      → has_only (names_of single_member_fields) ms ≡ true
      → member_at (codes "members") ms ≡ undefined
  members_absent no_members h = refl
  members_absent (entry k v more) h = elim (Bool-cases (k === codes "members")) [
    | inr other ↦ rw other (members_absent more (ground (arith, h)))
    | inl same ↦
        let is_key : k ≡ codes "members" = (===_iff k (codes "members")).0 same in
        cc (rw (is_key, members_no_key) at h)
  ]

  -- A body of `POST`, read and within its bounds.
  abbrev pub HasMembers : Json → Type 0
  HasMembers v =
      ((raw : RawMember) × (add_member_of v ≡ some (single raw)))
      ⊎ ((rows : List RawMember) × (add_member_of v ≡ some (members rows))
          × (1 ≤ length rows)
          × (length rows ≤ 200))

  pub add_member_of-HasMembers : (v : Json) → Output matches add_member_schema v → HasMembers v
  unfolding add_member_of
  add_member_of-HasMembers v (inl out) =
      let (ms, e, only, _) = out in
      let (raw, f) = single_member_of-Reads v out in
      inl (raw, rw e (rw (members_absent ms only) (rw (rw e at f) refl)))
  add_member_of-HasMembers v (inr (ms, e, only, ((vs, f, least, most, each), _))) =
      let (rows, g, size, _) =
        as_list-All _ (λ r. Unit {0}) single_member_of
          (λ w out. let (r, h) = single_member_of-Reads w out in (r, h, tt)) vs each in
      inr (rows, rw (e, f, g) refl, omega arith, omega arith)

  pub assign_servant_ids :
      (v : Json)
      → Output matches assign_servant_schema v
      → (ids : List Text) × (assign_servant_of v ≡ some ids)
        × (1 ≤ length ids)
        × (length ids ≤ 50)
        × All (λ id. matches uuid id ≡ true) ids
  unfolding assign_servant_of
  assign_servant_ids v (ms, e, _, ((vs, f, least, most, each), _)) =
      let (ids, g, size, are) =
        as_list-All _ (λ id. matches uuid id ≡ true) as_text (λ w (s, h, (u, _)). (s, rw h refl, u))
          vs each in
      (ids, rw (e, f, g) refl, omega arith, omega arith, are)
