-- ===== src/Classes/Repositories/Members/Pages.antt =====
-- The pages that the member repository lists.
use taksees.Prelude.{
  ℕ, zero, suc, ◌+◌, ◌*◌, ◌≡◌, ◌↔◌, refl, ap, ◌∙◌, List, [], ◌∷◌, ◌++◌, Text, arith, length, take,
  drop,
}
use taksees.Errors.{ok, >>=-eq-ok, result-injective}
use taksees.Effects.{Action, then_do, pure}
use taksees.Classes.Entities.{Member, MemberRow, member_from_prisma}
use taksees.Classes.Interfaces.{ListMembersFilter, PageInfo}
use taksees.Classes.Repositories.Paging.{pos, skip}
use taksees.Classes.Repositories.Members.Order.{
  IsIn, IsDistinct, IsSorted, sorted_unique, MayPrecede, MayPrecede-both,
}
use taksees.Classes.Repositories.Members.{
  MemberTable, MemberWhere, OrderBy, order_by, where_of, members_from_prisma, page_of,
  list_by_class,
}

-- The documented behaviour of a search, while no request writes, with `less` as the collation: the
-- rows that match, in an arrangement that `orderBy` allows, and of it the part that `skip` and
-- `take` say, with the number of all rows. Rows that tie may be arranged in another way by the next
-- search.
pub record IsSearch {S : Type 0} (less : Text → Text → Type 0) (table : MemberTable S)
    : Type 1 where
  pub Matches : S → MemberWhere → MemberRow → Type 0
  pub arranged : S → MemberWhere → OrderBy → (k n : ℕ) → List MemberRow
  pub distinct : (s : S) (w : MemberWhere) (o : OrderBy) (k n : ℕ) → IsDistinct (arranged s w o k n)
  pub all_matching :
      (s : S) (w : MemberWhere) (o : OrderBy) (k n : ℕ) (row : MemberRow)
      → IsIn row (arranged s w o k n) ↔ Matches s w row
  pub sorted :
      (s : S) (w : MemberWhere) (o : OrderBy) (k n : ℕ)
      → IsSorted (MayPrecede less o) (arranged s w o k n)
  pub find_many_lem :
      (w : MemberWhere) (o : OrderBy) (k n : ℕ) (s : S)
      → table.find_many_and_count w o (pos k) n s
        ≡ (ok (take n (drop k (arranged s w o k n)), length (arranged s w o k n)), s)

members-drop :
    (k : ℕ) (rows : List MemberRow) (members : List Member)
    → members_from_prisma rows ≡ ok members
    → members_from_prisma (drop k rows) ≡ ok (drop k members)
unfolding members_from_prisma
members-drop zero rows members h = h
members-drop (suc k) [] members h = ap (λ ms. ok (drop (suc k) ms)) (result-injective h)
members-drop (suc k) (row ∷ rows) members h =
    let (m, e, h₁) = >>=-eq-ok (member_from_prisma row) _ h in
    let (ms, e', h₂) = >>=-eq-ok (members_from_prisma rows) _ h₁ in
    members-drop k rows ms e' ∙ ap (λ l. ok (drop (suc k) l)) (result-injective h₂)

members-take :
    (n : ℕ) (rows : List MemberRow) (members : List Member)
    → members_from_prisma rows ≡ ok members
    → members_from_prisma (take n rows) ≡ ok (take n members)
unfolding members_from_prisma
members-take zero rows members h = refl
members-take (suc n) [] members h = ap (λ l. ok (take (suc n) l)) (result-injective h)
members-take (suc n) (row ∷ rows) members h =
    let (m, e, h₁) = >>=-eq-ok (member_from_prisma row) _ h in
    let (ms, e', h₂) = >>=-eq-ok (members_from_prisma rows) _ h₁ in
    rw (e, members-take n rows ms e') (ap (λ l. ok (take (suc n) l)) (result-injective h₂))

members-length :
    (rows : List MemberRow) (members : List Member)
    → members_from_prisma rows ≡ ok members
    → length rows ≡ length members
unfolding members_from_prisma
members-length [] members h = ap length (result-injective h)
members-length (row ∷ rows) members h =
    let (m, e, h₁) = >>=-eq-ok (member_from_prisma row) _ h in
    let (ms, e', h₂) = >>=-eq-ok (members_from_prisma rows) _ h₁ in
    ap suc (members-length rows ms e') ∙ ap length (result-injective h₂)

take-append :
    {A : Type 0} (m n total : ℕ) (xs : List A)
    → total ≡ m + n
    → take m xs ++ take n (drop m xs) ≡ take total xs
take-append zero n total xs e = ap (λ k. take k xs) (omega (arith, e))
take-append (suc m) n zero xs e = absurd (omega (arith, e))
take-append (suc m) zero (suc total) [] e = refl
take-append (suc m) (suc n) (suc total) [] e = refl
take-append (suc m) n (suc total) (x ∷ xs) e =
    ap (λ ys. x ∷ ys) (take-append m n total xs (omega (arith, e)))

module _ {S : Type 0} (less : Text → Text → Type 0) (asym : (a b : Text) → less a b → less b a → ⊥)
    (table : MemberTable S) (lawful : IsSearch less table) where
  abbrev numbered : ℕ → ℕ → PageInfo
  numbered page limit = record { page = page; limit = limit; total = 0 }

  -- No two matching rows have one activity and one name.
  abbrev pub HasNoTies : S → MemberWhere → Type 0
  HasNoTies s w =
      (a b : MemberRow)
      → lawful.Matches s w a
      → lawful.Matches s w b
      → a.is_active ≡ b.is_active
      → a.full_name ≡ b.full_name
      → a ≡ b

  -- Without ties every search arranges the rows in the same way.
  arranged_once :
      (s : S) (w : MemberWhere) (k n : ℕ)
      → HasNoTies s w
      → lawful.arranged s w order_by k n ≡ lawful.arranged s w order_by 0 0
  arranged_once s w k n apart =
      let xs = lawful.arranged s w order_by k n in
      let ys = lawful.arranged s w order_by 0 0 in
      sorted_unique xs ys (lawful.sorted s w order_by k n) (lawful.sorted s w order_by 0 0)
        (lawful.distinct s w order_by k n) (lawful.distinct s w order_by 0 0)
        (λ a m.
          (lawful.all_matching s w order_by 0 0 a).1 ((lawful.all_matching s w order_by k n a).0 m))
        (λ a m.
          (lawful.all_matching s w order_by k n a).1 ((lawful.all_matching s w order_by 0 0 a).0 m))
        (λ a b m m' before after.
          let (same, named) = MayPrecede-both less asym a b before after in
          apart a b ((lawful.all_matching s w order_by k n a).0 m)
            ((lawful.all_matching s w order_by k n b).0 m') same named)

  -- While no request writes: without ties, and if all matching rows read back, the page `page + 1`
  -- holds those after
  -- `page * limit` of them, at most `limit`, and the metadata their total number.
  pub list_page :
      (class_id : Text) (filter : ListMembersFilter) (page limit total : ℕ) (members : List Member)
      (s : S)
      → HasNoTies s (where_of class_id filter)
      → members_from_prisma (lawful.arranged s (where_of class_id filter) order_by 0 0) ≡ ok members
      → list_by_class table class_id filter
          (record { page = suc page; limit = limit; total = total })
          s
        ≡ (
          ok (record {
            rows = take limit (drop (page * limit) members);
            meta = record { page = suc page; limit = limit; total = length members };
          }),
          s,
        )
  unfolding list_by_class page_of skip
  list_page class_id filter page limit total members s apart h =
      let rows = lawful.arranged s (where_of class_id filter) order_by 0 0 in
      rw
        (
          lawful.find_many_lem (where_of class_id filter) order_by (page * limit) limit s,
          arranged_once s (where_of class_id filter) (page * limit) limit apart,
          members-take limit (drop (page * limit) rows) _
              (members-drop (page * limit) rows members h),
          members-length rows members h,
        )
        refl

  -- A client that lists the pages from the first to the `n`-th, one after the other.
  abbrev pub read_pages : Text → ListMembersFilter → (limit n : ℕ) → Action S (List Member)
  read_pages class_id filter limit zero s = (ok [], s)
  read_pages class_id filter limit (suc n) s =
      then_do (read_pages class_id filter limit n s) (λ before t.
        then_do (list_by_class table class_id filter (numbered (suc n) limit) t)
          (λ page. pure (before ++ page.rows)))

  -- While no request writes: if no two matching members have one activity and one name, and all
  -- matching rows read back, then the first `n` pages together are the first `n * limit` of them,
  -- in the order that is asked for: none is left out and none comes twice.
  pub pages_join :
      (class_id : Text) (filter : ListMembersFilter) (limit n : ℕ) (members : List Member) (s : S)
      → HasNoTies s (where_of class_id filter)
      → members_from_prisma (lawful.arranged s (where_of class_id filter) order_by 0 0) ≡ ok members
      → read_pages class_id filter limit n s ≡ (ok (take (n * limit) members), s)
  pages_join class_id filter limit zero members s apart h =
      let e : 0 ≡ 0 * limit = omega arith in ap (λ k. (ok (take k members), s)) e
  pages_join class_id filter limit (suc n) members s apart h =
      rw
        (
          pages_join class_id filter limit n members s apart h,
          list_page class_id filter n limit 0 members s apart h,
        )
        (ap (λ ms. (ok ms, s))
          (take-append (n * limit) limit (suc n * limit) members (omega arith)))
