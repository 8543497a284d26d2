-- ===== src/Classes/Entities/Laws.antt =====
-- Reading back the phone numbers that members were stored with.
use taksees.Prelude.{
  ◌≡◌, refl, inl, inr, Option, none, some, Text, arith, is_empty, subst, codes, Bool-cases,
}
use taksees.Errors.{ok, >>=-eq-ok, result-injective}
use taksees.Phone.{Phone, parse, parse_default}
use taksees.Phone.Regex.{IsE164, plus}
use taksees.Phone.Laws.{parse_of_IsE164, parse-IsE164}
use taksees.Classes.Entities.{MemberRow, optional_phone, member_from_prisma, member_of, phone_value}

-- A phone as the value object guarantees it, or none.
abbrev pub IsStored : Option Text → Type 0
IsStored none = Unit
IsStored (some text) = IsE164 text

optional_phone_of_IsE164 :
    (text : Text) → IsE164 text → optional_phone (some text) ≡ ok (some (record { value = text }))
unfolding optional_phone parse_default
optional_phone_of_IsE164 _ (plus d rest lo hi digits short long) =
    rw (parse_of_IsE164 _ (codes "+20") (plus d rest lo hi digits short long))

IsStored_of_eq :
    (phone : Option Phone) (o : Option Phone)
    → o ≡ phone
    → IsStored (phone_value o)
    → IsStored (phone_value phone)
IsStored_of_eq phone o e h = subst (λ p. IsStored (phone_value p)) e h

-- What `optional_phone` accepts is a number in E.164 form, or none.
pub optional_phone-IsStored :
    (raw : Option Text) (phone : Option Phone)
    → optional_phone raw ≡ ok phone
    → IsStored (phone_value phone)
unfolding optional_phone parse_default
optional_phone-IsStored none phone h = IsStored_of_eq phone none (result-injective h) tt
optional_phone-IsStored (some text) phone h = elim (Bool-cases (is_empty text)) [
  | inl blank ↦ IsStored_of_eq phone none (ground arith) tt
  | inr given ↦
      let (p, e, same) =
        >>=-eq-ok (parse text (codes "+20")) (λ p. ok (some p)) (rw (given) at h) in
      IsStored_of_eq phone (some p) (result-injective same) (parse-IsE164 text (codes "+20") p e)
]

-- A stored phone is accepted again, unchanged.
pub optional_phone_of_IsStored :
    (raw : Option Text)
    → IsStored raw
    → (phone : Option Phone) × (optional_phone raw ≡ ok phone) × (phone_value phone ≡ raw)
optional_phone_of_IsStored none h = (none, unfold optional_phone in refl, refl)
optional_phone_of_IsStored (some text) h =
    (some (record { value = text }), optional_phone_of_IsE164 text h, refl)

-- A row whose phone is missing or in E.164 form reads back as a member with just that phone and
-- the row's other columns.
pub member_from_prisma_total :
    (row : MemberRow)
    → IsStored row.phone
    → (phone : Option Phone) × (member_from_prisma row ≡ ok (member_of row phone))
      × (phone_value phone ≡ row.phone)
unfolding member_from_prisma
member_from_prisma_total row h =
    let (phone, e, same) = optional_phone_of_IsStored row.phone h in (phone, rw e, same)
