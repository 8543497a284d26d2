-- ===== src/Classes/Repositories/Members/PageTests.antt =====
-- A table of two members, which a search arranges by any order.
use taksees.Prelude.{
  ℕ, ◌≡◌, ◌≢◌, refl, sym, ap, ◌∙◌, ◌↔◌, ◌⊎◌, inl, inr, Bool, true, false, List, [], ◌∷◌, none, Text,
  codes, arith, ltb, ◌==◌, length, take, drop, if◌then◌else◌,
}
use taksees.Errors.{ok, throws, error}
use taksees.Effects.{Action}
use taksees.Classes.Entities.{member_of, Member, MemberRow, member_from_prisma, optional_phone}
use taksees.Classes.Interfaces.{ListMembersFilter}
use taksees.Classes.Repositories.Paging.{Offset, pos, neg, asc, desc}
use taksees.Classes.Repositories.Members.Order.{IsIn, IsDistinct, IsSorted, MayPrecede}
use taksees.Classes.Repositories.Members.{
  MemberTable, OrderBy, by_active, by_full_name, order_by, where_of, members_from_prisma,
}
use taksees.Classes.Repositories.Members.Pages.{IsSearch, HasNoTies, read_pages, pages_join}

-- Names are collated by their code units.
abbrev before : Text → Text → Bool
before [] [] = false
before [] (d ∷ t) = true
before (c ∷ s) [] = false
before (c ∷ s) (d ∷ t) = let rest = before s t in if c == d then rest else ltb c d

abbrev Less : Text → Text → Type 0
Less s t = before s t ≡ true

less_asym : (s t : Text) → Less s t → Less t s → ⊥
less_asym [] [] h k = cc
less_asym [] (d ∷ t) h k = cc
less_asym (c ∷ s) [] h k = cc
less_asym (c ∷ s) (d ∷ t) h k = ground (arith, less_asym s t)

abbrev row_of : (id name : Text) → MemberRow
row_of id name = record {
  id = id;
  class_id = codes "c1";
  user_id = none;
  full_name = name;
  phone = none;
  is_active = true;
  created_at = 0;
  updated_at = 0;
}

abbrev mark : MemberRow
mark = row_of (codes "m1") (codes "Mark")

abbrev mina : MemberRow
mina = row_of (codes "m2") (codes "Mina")

names_differ : codes "Mark" ≢ codes "Mina"
names_differ = ground arith

apart : mark ≢ mina
apart e = names_differ (ap (λ r. r.full_name) e)

Either : OrderBy → Type 0
Either o = MayPrecede Less o mark mina ⊎ MayPrecede Less o mina mark

either : (o : OrderBy) → Either o
unfolding Either
either [] = inl tt
either ((by_active, direction) ∷ o) = elim (either o) [
  | inl h ↦ inl (inr (refl, h))
  | inr h ↦ inr (inr (refl, h))
]
either ((by_full_name, asc) ∷ o) = inl (inl refl)
either ((by_full_name, desc) ∷ o) = inr (inl refl)

arrange : (o : OrderBy) → Either o → List MemberRow
unfolding Either
arrange o (inl h) = mark ∷ mina ∷ []
arrange o (inr h) = mina ∷ mark ∷ []

arrange-IsSorted : (o : OrderBy) (e : Either o) → IsSorted (MayPrecede Less o) (arrange o e)
unfolding Either arrange
arrange-IsSorted o (inl h) = ((h, tt), (tt, tt))
arrange-IsSorted o (inr h) = ((h, tt), (tt, tt))

arrange-IsDistinct : (o : OrderBy) (e : Either o) → IsDistinct (arrange o e)
unfolding Either arrange
arrange-IsDistinct o (inl h) = (λ m. elim m [ inl e ↦ apart e | inr n ↦ n ], (λ n. n, tt))
arrange-IsDistinct o (inr h) = (λ m. elim m [ inl e ↦ apart (sym e) | inr n ↦ n ], (λ n. n, tt))

arrange_iff :
    (o : OrderBy) (e : Either o) (row : MemberRow)
    → IsIn row (arrange o e) ↔ IsIn row (mark ∷ mina ∷ [])
unfolding Either arrange
arrange_iff o (inl h) row = (λ m. m, λ m. m)
arrange_iff o (inr h) row = (swapped mina mark, swapped mark mina)
  where
    swapped : (a b : MemberRow) → IsIn row (a ∷ b ∷ []) → IsIn row (b ∷ a ∷ [])
    swapped a b (inl e) = inr (inl e)
    swapped a b (inr (inl e)) = inl e
    swapped a b (inr (inr n)) = absurd n

abbrev State : Type 0
State = Unit {0}

abbrev unsupported : {A : Type 0} → Action State A
unsupported s = (throws (error (codes "unsupported")), s)

abbrev part : Offset → ℕ → List MemberRow → List MemberRow
part (pos k) n rows = take n (drop k rows)
part (neg k) n rows = []

abbrev table : MemberTable State
table = record {
  find_unique = λ id. unsupported;
  find_many_and_count =
      λ w o k n s. (ok (part k n (arrange o (either o)), length (arrange o (either o))), s);
  create = λ columns. unsupported;
  create_many = λ columns. unsupported;
  update = λ id change. unsupported;
}

abbrev table-IsSearch : IsSearch Less table
table-IsSearch = record {
  Matches = λ s w row. IsIn row (mark ∷ mina ∷ []);
  arranged = λ s w o k n. arrange o (either o);
  distinct = λ s w o k n. arrange-IsDistinct o (either o);
  all_matching = λ s w o k n row. arrange_iff o (either o) row;
  sorted = λ s w o k n. arrange-IsSorted o (either o);
  find_many_lem = λ w o k n s. refl;
}

abbrev no_filter : ListMembersFilter
no_filter = record { q = none; is_active = none }

no_ties : HasNoTies Less less_asym table table-IsSearch tt (where_of (codes "c1") no_filter)
no_ties a b (inl e) (inl f) active named = cc
no_ties a b (inr (inl e)) (inr (inl f)) active named = cc
no_ties a b (inl e) (inr (inl f)) active named =
    absurd (names_differ (sym (ap (λ r. r.full_name) e) ∙ named ∙ ap (λ r. r.full_name) f))
no_ties a b (inr (inl e)) (inl f) active named =
    absurd (names_differ (sym (sym (ap (λ r. r.full_name) e) ∙ named ∙ ap (λ r. r.full_name) f)))
no_ties a b (inr (inr n)) m active named = absurd n
no_ties a b (inl e) (inr (inr n)) active named = absurd n
no_ties a b (inr (inl e)) (inr (inr n)) active named = absurd n

abbrev both : List Member
both = member_of mark none ∷ member_of mina none ∷ []

both_read : members_from_prisma (arrange order_by (either order_by)) ≡ ok both
unfolding arrange either members_from_prisma member_from_prisma optional_phone
both_read = refl

pages_join_example :
    read_pages Less less_asym table table-IsSearch (codes "c1") no_filter 1 2 tt ≡ (ok both, tt)
pages_join_example =
    pages_join Less less_asym table table-IsSearch (codes "c1") no_filter 1 2 both tt no_ties
      both_read
