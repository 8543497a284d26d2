-- ===== src/Classes/Repositories/Members/Invariant.antt =====
-- The phones in the table of the members, over any sequence of the member service's operations.
use taksees.Prelude.{
  ℕ, ◌≡◌, refl, ap, subst, codes, Bool, true, false, List, [], ◌∷◌, map, Option, none, some, Text,
  All,
}
use taksees.Errors.{Result, ok, throws, >>=-eq-ok, result-injective}
use taksees.Effects.{Action, then_do, lift}
use taksees.Phone.{Phone, parse, parse_default}
use taksees.Phone.Laws.{parse-IsE164}
use taksees.Classes.Entities.{Member}
use taksees.Classes.Entities.Laws.{IsStored}
use taksees.Classes.Interfaces.{CreateMemberInput, ClassRepository, Field, undefined, null, value}
use taksees.Classes.Services.MemberInput.{
  RawMember, RawUpdate, create_input, create_inputs, update_phone, update_input,
}
use taksees.Classes.Services.MemberService
use taksees.Classes.Services.MemberService.{check_class, found_or_throw, get_by_id}
use taksees.Classes.Services.MemberService.Laws.{
  AllMatch, create_input-Matches, create_inputs-AllMatch,
}
use taksees.Classes.Repositories.Paging.{Offset}
use taksees.Classes.Repositories.Members.{
  MemberTable, MemberWhere, OrderBy, MemberData, MemberChange, data_of, change_of, phone_change,
  find_by_id, list_by_class, create, create_many, update, set_active, repository,
}

-- What holds of the phone that a change names.
abbrev pub OfChange : (Option Text → Type 0) → Option (Option Text) → Type 0
OfChange P none = Unit
OfChange P (some phone) = P phone

-- The documented behaviour of the client on the phone column, whether a call returns or throws: it
-- holds no phone but those that were there or are written. Lookups write nothing.
pub record IsPhoneTable {S : Type 0} (table : MemberTable S) (classes : ClassRepository S)
    : Type 1 where
  pub phones : S → List (Option Text)
  pub after-exists :
      (P : Option Text → Type 0) (id : Text) (s : S)
      → All P (phones s)
      → All P (phones (classes.exists id s).1)
  pub after-find_unique :
      (P : Option Text → Type 0) (id : Text) (s : S)
      → All P (phones s)
      → All P (phones (table.find_unique id s).1)
  pub after-find_many :
      (P : Option Text → Type 0) (w : MemberWhere) (o : OrderBy) (k : Offset) (n : ℕ) (s : S)
      → All P (phones s)
      → All P (phones (table.find_many_and_count w o k n s).1)
  pub after-create :
      (P : Option Text → Type 0) (columns : MemberData) (s : S)
      → P columns.phone
      → All P (phones s)
      → All P (phones (table.create columns s).1)
  pub after-create_many :
      (P : Option Text → Type 0) (rows : List MemberData) (s : S)
      → All (λ columns. P columns.phone) rows
      → All P (phones s)
      → All P (phones (table.create_many rows s).1)
  pub after-update :
      (P : Option Text → Type 0) (id : Text) (change : MemberChange) (s : S)
      → OfChange P change.phone
      → All P (phones s)
      → All P (phones (table.update id change s).1)

-- A property of the state that the first step and the rest keep is kept by both together.
then_do-keeps :
    {S A B : Type 0} (Inv : S → Type 0) (o : Result A × S) (f : A → Action S B)
    → Inv o.1
    → ((a : A) (u : S) → o ≡ (ok a, u) → Inv u → Inv (f a u).1)
    → Inv (then_do o f).1
then_do-keeps Inv (ok a, u) f h k = k a u refl h
then_do-keeps Inv (throws e, u) f h k = h

update_phone-OfChange :
    (raw : Field Text) (phone : Field Phone)
    → update_phone raw ≡ ok phone
    → OfChange IsStored (phone_change phone)
unfolding update_phone phone_change parse_default
update_phone-OfChange undefined phone h =
    subst (λ p. OfChange IsStored (phone_change p)) (result-injective h) tt
update_phone-OfChange null phone h =
    subst (λ p. OfChange IsStored (phone_change p)) (result-injective h) tt
update_phone-OfChange (value text) phone h =
    let (p, e, same) = >>=-eq-ok (parse text (codes "+20")) _ h in
    subst (λ p. OfChange IsStored (phone_change p)) (result-injective same)
      (parse-IsE164 text (codes "+20") p e)

AllMatch-stored :
    (class_id : Text) (rows : List RawMember) (inputs : List CreateMemberInput)
    → AllMatch class_id rows inputs
    → All (λ columns. IsStored columns.phone) (map data_of inputs)
unfolding data_of
AllMatch-stored class_id [] [] h = tt
AllMatch-stored class_id [] (input ∷ inputs) h = absurd h
AllMatch-stored class_id (raw ∷ rows) [] h = absurd h
AllMatch-stored class_id (raw ∷ rows) (input ∷ inputs) (match, h) =
    (match.stored, AllMatch-stored class_id rows inputs h)

module _ {S : Type 0} (table : MemberTable S) (classes : ClassRepository S)
    (lawful : IsPhoneTable table classes) where
  -- Every member in the table has a phone in E.164 form or none.
  abbrev pub HasPhones : S → Type 0
  HasPhones s = All IsStored (lawful.phones s)

  check_class-keeps :
      (id : Text) (b : Bool) (s : S) → HasPhones s → HasPhones (check_class id b s).1
  unfolding check_class
  check_class-keeps id true s h = h
  check_class-keeps id false s h = h

  add_one-keeps :
      (class_id : Text) (raw : RawMember) (s : S)
      → HasPhones s
      → HasPhones (MemberService.add_one (repository table) classes class_id raw s).1
  unfolding MemberService.add_one create data_of
  add_one-keeps class_id raw s h =
      then_do-keeps HasPhones (classes.exists class_id s) _
        (lawful.after-exists IsStored class_id s h)
        (λ known u _ h₁.
          then_do-keeps HasPhones (check_class class_id known u) _
            (check_class-keeps class_id known u h₁)
            (λ _ v _ h₂.
              then_do-keeps HasPhones (lift (create_input class_id raw) v) _ h₂ (λ input w e h₃.
                let match = create_input-Matches class_id raw input (ap (λ o. o.0) e) in
                then_do-keeps HasPhones (table.create (data_of input) w) _
                  (lawful.after-create IsStored (data_of input) w match.stored h₃)
                  (λ row x _ h₄. h₄))))

  add_bulk-keeps :
      (class_id : Text) (rows : List RawMember) (s : S)
      → HasPhones s
      → HasPhones (MemberService.add_bulk (repository table) classes class_id rows s).1
  unfolding MemberService.add_bulk create_many list_by_class
  add_bulk-keeps class_id rows s h =
      then_do-keeps HasPhones (classes.exists class_id s) _
        (lawful.after-exists IsStored class_id s h)
        (λ known u _ h₁.
          then_do-keeps HasPhones (check_class class_id known u) _
            (check_class-keeps class_id known u h₁)
            (λ _ v _ h₂.
              then_do-keeps HasPhones (lift (create_inputs class_id rows) v) _ h₂ (λ inputs w e h₃.
                let stored =
                  AllMatch-stored class_id rows inputs
                    (create_inputs-AllMatch class_id rows inputs (ap (λ o. o.0) e)) in
                then_do-keeps HasPhones (table.create_many (map data_of inputs) w) _
                  (lawful.after-create_many IsStored (map data_of inputs) w stored h₃)
                  (λ created x _ h₄.
                    then_do-keeps HasPhones (list_by_class table class_id _ _ x) _
                      (then_do-keeps HasPhones (table.find_many_and_count _ _ _ _ x) _
                        (lawful.after-find_many IsStored _ _ _ _ x h₄) (λ found y _ h₅. h₅))
                      (λ page y _ h₅. h₅)))))

  found_or_throw-keeps :
      (id : Text) (o : Option Member) (s : S)
      → HasPhones s
      → HasPhones (found_or_throw (repository table) classes id o s).1
  unfolding found_or_throw
  found_or_throw-keeps id none s h = h
  found_or_throw-keeps id (some m) s h = h

  get_by_id-keeps :
      (id : Text) (s : S) → HasPhones s → HasPhones (get_by_id (repository table) classes id s).1
  unfolding get_by_id find_by_id
  get_by_id-keeps id s h =
      then_do-keeps HasPhones (find_by_id table id s) _
        (then_do-keeps HasPhones (table.find_unique id s) _
          (lawful.after-find_unique IsStored id s h) (λ row u _ h₁. h₁))
        (λ o u _ h₁. found_or_throw-keeps id o u h₁)

  update-keeps :
      (id : Text) (input : RawUpdate) (s : S)
      → HasPhones s
      → HasPhones (MemberService.update (repository table) classes id input s).1
  unfolding MemberService.update update change_of update_input
  update-keeps id input s h =
      then_do-keeps HasPhones (get_by_id (repository table) classes id s) _ (get_by_id-keeps id s h)
        (λ _ u _ h₁. then_do-keeps HasPhones (lift (update_input input) u) _ h₁ (λ dto v e h₂.
          let (phone, parsed, same) = >>=-eq-ok (update_phone input.phone) _ (ap (λ o. o.0) e) in
          let is_given : OfChange IsStored (phone_change dto.phone) =
            subst (λ d. OfChange IsStored (phone_change d.phone)) (result-injective same)
              (update_phone-OfChange input.phone phone parsed) in
          then_do-keeps HasPhones (table.update id (change_of dto) v) _
            (lawful.after-update IsStored id (change_of dto) v is_given h₂) (λ row w _ h₃. h₃)))

  set_active-keeps :
      (id : Text) (is_active : Bool) (s : S)
      → HasPhones s
      → HasPhones (MemberService.set_active (repository table) classes id is_active s).1
  unfolding MemberService.set_active set_active
  set_active-keeps id is_active s h =
      then_do-keeps HasPhones (get_by_id (repository table) classes id s) _ (get_by_id-keeps id s h)
        (λ _ u _ h₁.
          then_do-keeps HasPhones (table.update id _ u) _
            (lawful.after-update IsStored id _ u tt h₁) (λ row w _ h₂. h₂))

  -- A call of the service, to its end or to its error, takes one state to the next.
  pub data Step (s : S) : S → Type 0 where
    adds_one :
        (class_id : Text) (raw : RawMember)
        → Step s (MemberService.add_one (repository table) classes class_id raw s).1
    adds_bulk :
        (class_id : Text) (rows : List RawMember)
        → Step s (MemberService.add_bulk (repository table) classes class_id rows s).1
    updates :
        (id : Text) (input : RawUpdate)
        → Step s (MemberService.update (repository table) classes id input s).1
    sets_active :
        (id : Text) (is_active : Bool)
        → Step s (MemberService.set_active (repository table) classes id is_active s).1

  pub data Reaches (s : S) : S → Type 0 where
    here : Reaches s s
    then_step : (t u : S) → Reaches s t → Step t u → Reaches s u

  Step-keeps : (s t : S) → Step s t → HasPhones s → HasPhones t
  Step-keeps s _ (adds_one class_id raw) h = add_one-keeps class_id raw s h
  Step-keeps s _ (adds_bulk class_id rows) h = add_bulk-keeps class_id rows s h
  Step-keeps s _ (updates id input) h = update-keeps id input s h
  Step-keeps s _ (sets_active id is_active) h = set_active-keeps id is_active s h

  -- Over a table that behaves as documented on the phone column: if every stored phone is in E.164
  -- form or missing, it stays so through any sequence of calls of `add_one`, `add_bulk`, `update` and
  -- `set_active`, whatever they are given and whether each returns or throws.
  pub phones_stay_valid :
      (s t : S) → Reaches s t → All IsStored (lawful.phones s) → All IsStored (lawful.phones t)
  phones_stay_valid s _ here h = h
  phones_stay_valid s _ (then_step t u before step) h =
      Step-keeps t u step (phones_stay_valid s t before h)
