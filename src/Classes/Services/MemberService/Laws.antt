-- ===== src/Classes/Services/MemberService/Laws.antt =====
-- What the member service writes and what it refuses, whatever the repositories do.
use taksees.Prelude.{◌≡◌, refl, ap, subst, ◌∙◌, true, false, List, [], ◌∷◌, ◌++◌, Option, Text}
use taksees.Errors.{ok, throws, Exception, domain, class_not_found, >>=-eq-ok, result-injective}
use taksees.Effects.{then_do-ok, lift}
use taksees.Phone.{Phone}
use taksees.Classes.Entities.{optional_phone, phone_value}
use taksees.Classes.Entities.Laws.{IsStored, optional_phone-IsStored}
use taksees.Classes.Interfaces.{
  CreateMemberInput, ListMembersFilter, PageInfo, ClassRepository, MemberRepository,
}
use taksees.Classes.Services.MemberInput.{RawMember, create_input, create_inputs, input_with}
use taksees.Classes.Services.MemberService.{BulkAddResult, check_class, list, add_one, add_bulk}

-- The input that belongs to one member of the request's body.
pub record Matches (class_id : Text) (raw : RawMember) (input : CreateMemberInput) : Type 0 where
  pub same_class : input.class_id ≡ class_id
  pub same_name : input.full_name ≡ raw.full_name
  pub same_user : input.user_id ≡ raw.user_id
  pub parsed : optional_phone raw.phone ≡ ok input.phone
  pub stored : IsStored (phone_value input.phone)

-- One input for each member, in order.
abbrev pub AllMatch : Text → List RawMember → List CreateMemberInput → Type 0
AllMatch class_id [] [] = Unit
AllMatch class_id [] (input ∷ inputs) = ⊥
AllMatch class_id (raw ∷ rows) [] = ⊥
AllMatch class_id (raw ∷ rows) (input ∷ inputs) =
    Matches class_id raw input × AllMatch class_id rows inputs

input_with-Matches :
    (class_id : Text) (raw : RawMember) (phone : Option Phone)
    → optional_phone raw.phone ≡ ok phone
    → Matches class_id raw (input_with class_id raw phone)
input_with-Matches class_id raw phone e = record {
  same_class = refl;
  same_name = refl;
  same_user = refl;
  parsed = e;
  stored = optional_phone-IsStored raw.phone phone e;
}

pub create_input-Matches :
    (class_id : Text) (raw : RawMember) (input : CreateMemberInput)
    → create_input class_id raw ≡ ok input
    → Matches class_id raw input
unfolding create_input
create_input-Matches class_id raw input h =
    let (phone, e, same) = >>=-eq-ok (optional_phone raw.phone) _ h in
    subst (Matches class_id raw) (result-injective same) (input_with-Matches class_id raw phone e)

pub create_inputs-AllMatch :
    (class_id : Text) (rows : List RawMember) (inputs : List CreateMemberInput)
    → create_inputs class_id rows ≡ ok inputs
    → AllMatch class_id rows inputs
unfolding create_inputs
create_inputs-AllMatch class_id [] inputs h = subst (AllMatch class_id []) (result-injective h) tt
create_inputs-AllMatch class_id (raw ∷ rows) inputs h =
    let (input, e, h₁) = >>=-eq-ok (create_input class_id raw) _ h in
    let (rest, e', h₂) = >>=-eq-ok (create_inputs class_id rows) _ h₁ in
    subst (AllMatch class_id (raw ∷ rows)) (result-injective h₂)
      (create_input-Matches class_id raw input e, create_inputs-AllMatch class_id rows rest e')

create_inputs-refused :
    (class_id : Text) (before : List RawMember) (raw : RawMember) (after : List RawMember)
    (inputs : List CreateMemberInput) (e : Exception)
    → create_inputs class_id before ≡ ok inputs
    → optional_phone raw.phone ≡ throws e
    → create_inputs class_id (before ++ raw ∷ after) ≡ throws e
unfolding create_inputs create_input
create_inputs-refused class_id [] raw after inputs e h bad = rw bad refl
create_inputs-refused class_id (x ∷ before) raw after inputs e h bad =
    let (input, e₁, h₁) = >>=-eq-ok (create_input class_id x) _ h in
    let (rest, e₂, h₂) = >>=-eq-ok (create_inputs class_id before) _ h₁ in
    rw (e₁, create_inputs-refused class_id before raw after rest e e₂ bad) refl

module _ {S : Type 0} (members : MemberRepository S) (classes : ClassRepository S) where
  -- If `add_bulk` returns, the number it reports is what `create_many` returned for one input per
  -- given member, in order, each with the class, the name, the user and a phone in E.164 form or
  -- none.
  pub add_bulk_inputs :
      (class_id : Text) (rows : List RawMember) (s t : S) (r : BulkAddResult)
      → add_bulk members classes class_id rows s ≡ (ok r, t)
      → (inputs : List CreateMemberInput) × (u v : S) × (members.create_many inputs u
          ≡ (ok r.created, v))
        × AllMatch class_id rows inputs
  unfolding add_bulk
  add_bulk_inputs class_id rows s t r h =
      let (known, s₁, _, h₁) = then_do-ok (classes.exists class_id s) _ h in
      let (_, s₂, _, h₂) = then_do-ok (check_class class_id known s₁) _ h₁ in
      let (inputs, s₃, e, h₃) = then_do-ok (lift (create_inputs class_id rows) s₂) _ h₂ in
      let (created, s₄, e₄, h₄) = then_do-ok (members.create_many inputs s₃) _ h₃ in
      let (page, s₅, _, h₅) = then_do-ok (members.list_by_class class_id _ _ s₄) _ h₄ in
      let same : created ≡ r.created = ap (λ b. b.created) (result-injective (ap (λ o. o.0) h₅)) in
      (
        inputs,
        s₃,
        s₄,
        e₄ ∙ ap (λ n. (ok n, s₄)) same,
        create_inputs-AllMatch class_id rows inputs (ap (λ o. o.0) e),
      )

  -- One phone that is refused refuses the whole batch: if the class is there, the members before
  -- it have good phones and its own phone is refused with `e`, `add_bulk` throws `e` in the state
  -- that the lookup of the class left, so that no member has been written.
  pub add_bulk_refused :
      (class_id : Text) (before : List RawMember) (raw : RawMember) (after : List RawMember)
      (inputs : List CreateMemberInput) (e : Exception) (s u : S)
      → classes.exists class_id s ≡ (ok true, u)
      → create_inputs class_id before ≡ ok inputs
      → optional_phone raw.phone ≡ throws e
      → add_bulk members classes class_id (before ++ raw ∷ after) s ≡ (throws e, u)
  unfolding add_bulk check_class
  add_bulk_refused class_id before raw after inputs e s u known good bad =
      rw (known, create_inputs-refused class_id before raw after inputs e good bad) refl

  -- If the lookup finds no class, each of `list`, `add_one` and `add_bulk` throws the error for
  -- the missing class in the state that the lookup left.
  pub unknown_class_refused :
      (class_id : Text) (filter : ListMembersFilter) (page : PageInfo) (raw : RawMember)
      (rows : List RawMember) (s u : S)
      → classes.exists class_id s ≡ (ok false, u)
      → let e : Exception = domain (class_not_found class_id) in
        (list members classes class_id filter page s ≡ (throws e, u))
        × (add_one members classes class_id raw s ≡ (throws e, u))
        × (add_bulk members classes class_id rows s ≡ (throws e, u))
  unfolding list add_one add_bulk check_class
  unknown_class_refused class_id filter page raw rows s u h = (rw h refl, rw h refl, rw h refl)
