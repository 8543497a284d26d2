-- ===== src/Seed/Members/Laws.antt =====
-- The members that are seeded have phones of their own, in the form that the services store.
use taksees.Prelude.{
  ℕ, zero, suc, ◌+◌, ◌-◌, ◌≤◌, ◌<◌, ◌≡◌, ◌≢◌, refl, sym, ap, ◌∙◌, true, List, [], ◌∷◌, ◌++◌, Text,
  arith, codes, all, All, is_digit, length, length-append, to_string, pad_start, read,
  read-to_string, all-to_string, length-to_string, append-cancel_left,
}
use taksees.Errors.{ok}
use taksees.Phone.{e164, parse_default}
use taksees.Phone.Regex.{IsE164, e164_iff}
use taksees.Phone.Laws.{parse_of_IsE164}
use taksees.Seed.Members.{MemberRow, make_phone, row_at, rows_from, Share, batches}

pad_start-full : (width : ℕ) (s : Text) → width ≤ length s → pad_start width s ≡ s
unfolding pad_start
pad_start-full width s h = let e : width - length s ≡ 0 = omega arith in rw e refl

e164_digits :
    (s : Text) → all is_digit s ≡ true → length s ≡ 5 → e164 (codes "+2012345" ++ s) ≡ true
unfolding e164 is_digit
e164_digits s h five = ground arith

make_phone-digits : (i : ℕ) → i < 32110 → make_phone i ≡ codes "+2012345" ++ to_string (67890 + i)
unfolding make_phone
make_phone-digits i h =
    rw
      (pad_start-full 5 (to_string (67890 + i))
        (omega (arith, length-to_string (67890 + i) (omega arith) (omega arith))))
      refl

make_phone-IsE164 : (i : ℕ) → i < 32110 → IsE164 (make_phone i)
make_phone-IsE164 i h = rw (make_phone-digits i h) (
    (e164_iff _).0 (
      e164_digits (to_string (67890 + i)) (all-to_string (67890 + i))
        (length-to_string (67890 + i) (omega arith) (omega arith))))

-- Below the index 32110, at which the numbers would grow a digit, every phone that `makePhone`
-- makes is in E.164 form, and `Phone.parse` accepts it unchanged.
pub make_phone_accepted :
    (i : ℕ)
    → i < 32110
    → IsE164 (make_phone i) × (parse_default (make_phone i) ≡ ok (record { value = make_phone i }))
unfolding parse_default
make_phone_accepted i h =
    (make_phone-IsE164 i h, parse_of_IsE164 (make_phone i) (codes "+20") (make_phone-IsE164 i h))

make_phone-injective : (i j : ℕ) → i < 32110 → j < 32110 → make_phone i ≡ make_phone j → i ≡ j
make_phone-injective i j hi hj e =
    let same : to_string (67890 + i) ≡ to_string (67890 + j) =
      append-cancel_left (codes "+2012345") _ _
        (sym (make_phone-digits i hi) ∙ (e ∙ make_phone-digits j hj)) in
    omega (
      arith,
      sym (read-to_string (67890 + i)) ∙ (ap (λ s. read s 0) same ∙ read-to_string (67890 + j)),
    )

-- The rows of every batch, in the order in which they are written.
abbrev pub all_rows : List (List MemberRow) → List MemberRow
all_rows [] = []
all_rows (batch ∷ more) = batch ++ all_rows more

abbrev pub total : List Share → ℕ
total [] = 0
total (share ∷ shares) = share.count + total shares

-- No two rows have the same phone.
abbrev pub DistinctPhones : List MemberRow → Type 0
DistinctPhones [] = Unit
DistinctPhones (row ∷ rows) = All (λ r. row.phone ≢ r.phone) rows × DistinctPhones rows

-- Rows numbered from an index on, whatever their classes are.
data Numbered : ℕ → List MemberRow → Type 0 where
  none_left : {index : ℕ} → Numbered index []
  next :
      {index : ℕ} {row : MemberRow} {rows : List MemberRow}
      → row.phone ≡ make_phone (index + 1)
      → Numbered (index + 1) rows
      → Numbered index (row ∷ rows)

Numbered-append :
    (class_id : Text) (index count : ℕ) (rows : List MemberRow)
    → Numbered (index + count) rows
    → Numbered index (rows_from class_id index count ++ rows)
unfolding rows_from row_at
Numbered-append class_id index zero rows h = let e : index + 0 ≡ index = omega arith in rw (← e) h
Numbered-append class_id index (suc count) rows h =
    let e : index + suc count ≡ index + 1 + count = omega arith in
    next refl (Numbered-append class_id (index + 1) count rows (rw e at h))

batches-Numbered :
    (index : ℕ) (shares : List Share) → Numbered index (all_rows (batches index shares))
unfolding batches
batches-Numbered index [] = none_left
batches-Numbered index (share ∷ shares) =
    Numbered-append share.class_id index share.count _
      (batches-Numbered (index + share.count) shares)

length-rows_from :
    (class_id : Text) (index count : ℕ) → length (rows_from class_id index count) ≡ count
unfolding rows_from
length-rows_from class_id index zero = refl
length-rows_from class_id index (suc count) = ap suc (length-rows_from class_id (index + 1) count)

length-batches :
    (index : ℕ) (shares : List Share) → length (all_rows (batches index shares)) ≡ total shares
unfolding batches
length-batches index [] = refl
length-batches index (share ∷ shares) = omega (
  arith,
  length-append (rows_from share.class_id index share.count)
      (all_rows (batches (index + share.count) shares)),
  length-rows_from share.class_id index share.count,
  length-batches (index + share.count) shares,
)

later_phones :
    (i index : ℕ) (rows : List MemberRow)
    → i ≤ index
    → index + length rows < 32110
    → Numbered index rows
    → All (λ r. make_phone i ≢ r.phone) rows
later_phones i index [] le below none_left = tt
later_phones i index (row ∷ rows) le below (next e h) = (
  (λ same.
      absurd
        (omega (arith, make_phone-injective i (index + 1) (omega arith) (omega arith) (same ∙ e)))),
  later_phones i (index + 1) rows (omega arith) (omega arith) h,
)

Numbered-DistinctPhones :
    (index : ℕ) (rows : List MemberRow)
    → index + length rows < 32110
    → Numbered index rows
    → DistinctPhones rows
Numbered-DistinctPhones index [] below none_left = tt
Numbered-DistinctPhones index (row ∷ rows) below (next e h) = (
  rw e (later_phones (index + 1) (index + 1) rows (omega arith) (omega arith) h),
  Numbered-DistinctPhones (index + 1) rows (omega arith) h,
)

-- `Phone.parse` accepts the phone of the row, and keeps it.
abbrev pub HasPhone : MemberRow → Type 0
HasPhone row = parse_default row.phone ≡ ok (record { value = row.phone })

Numbered-HasPhone :
    (index : ℕ) (rows : List MemberRow)
    → index + length rows < 32110
    → Numbered index rows
    → All HasPhone rows
Numbered-HasPhone index [] below none_left = tt
Numbered-HasPhone index (row ∷ rows) below (next e h) = (
  rw e (make_phone_accepted (index + 1) (omega arith)).1,
  Numbered-HasPhone (index + 1) rows (omega arith) h,
)

-- For classes that get fewer than 32110 members in all, the batches that the script writes hold as
-- many rows as the classes ask for together, no two rows have the same phone, and `Phone.parse`
-- accepts every phone and keeps it.
pub seeded_phones :
    (shares : List Share)
    → total shares < 32110
    → let rows = all_rows (batches 0 shares) in
      (length rows ≡ total shares) × DistinctPhones rows × All HasPhone rows
seeded_phones shares below =
    let numbered = batches-Numbered 0 shares in
    let size = length-batches 0 shares in
    (
      size,
      Numbered-DistinctPhones 0 _ (omega arith) numbered,
      Numbered-HasPhone 0 _ (omega arith) numbered,
    )
