-- ===== src/Server/Answers/Laws.antt =====
-- A refused batch of members, from the body of the request to the answer.
use taksees.Prelude.{
  ℕ, ◌≡◌, refl, ap, ◌∙◌, ◌⊎◌, true, false, List, [], ◌∷◌, ◌++◌, reverse, Option, some, Text,
  is_empty, codes, trim, ◌===◌, Bool-cases, inl, inr,
}
use taksees.Errors.{ok, throws, domain, DomainError, invalid_phone, error_code}
use taksees.Roles.{super_admin, leader, servant}
use taksees.Phone.{e164, normalise, parse, parse_default}
use taksees.Filters.{Object, number, text, get, to_problem_details, domain_status}
use taksees.Filters.Http.{Response, domain_error, catch, problem_of, status_or_internal, trace_of}
use taksees.Filters.Dispatch.{Filter, app_filters, select, catches, other, http_exception_filter}
use taksees.Classes.Entities.{optional_phone}
use taksees.Classes.Interfaces.{CreateMemberInput, MemberRepository, ClassRepository}
use taksees.Classes.Services.MemberInput.{RawMember, create_inputs}
use taksees.Classes.Services.MemberService.Laws.{add_bulk_refused}
use taksees.Guards.Tenant
use taksees.Classes.Controllers.{Request, Outside, members, both_guards, add_body, add_members}
use taksees.Validation.{Json, Schema}
use taksees.Validation.Dto.{add_member_schema}
use taksees.Validation.Decode.{add_member_of}
use taksees.Validation.Pipe.{Issue, Parsed, Messages, transform, argument_of}
use taksees.Server.{problem}
use taksees.Server.Laws.{filtered-problem}
use taksees.Server.Answers.{thrown_of, reply_of, respond}

parse_refused :
    (p : Text)
    → e164 (normalise (codes "+20") p) ≡ false
    → parse_default p ≡ throws (domain (invalid_phone p))
unfolding parse_default parse
parse_refused p bad = elim (Bool-cases (is_empty (trim p))) [
  | inl blank ↦ rw blank refl
  | inr given ↦ rw (given, bad) refl
]

phone_refused :
    (raw : RawMember) (p : Text)
    → raw.phone ≡ some p
    → is_empty p ≡ false
    → e164 (normalise (codes "+20") p) ≡ false
    → optional_phone raw.phone ≡ throws (domain (invalid_phone p))
unfolding optional_phone
phone_refused raw p is_p given bad = ap optional_phone is_p ∙ rw (given, parse_refused p bad) refl

-- The order in which app.module.ts lists the filters, or the reverse of it.
abbrev pub IsOrder : List Filter → Type 0
IsOrder filters = (filters ≡ app_filters) ⊎ (filters ≡ reverse app_filters)

select_general :
    (filters : List Filter) (e : DomainError)
    → IsOrder filters
    → select filters (other (domain_error e)) ≡ some http_exception_filter
unfolding select catches
select_general filters e (inl h) = ap (λ fs. select fs (other (domain_error e))) h
select_general filters e (inr h) = ap (λ fs. select fs (other (domain_error e))) h

module _ (status_name : ℕ → Option Text) (digits : ℕ → Text) (http_response : ℕ → Text → Response)
    (target_of : Text → Option (List Text)) where
  abbrev sent_body : DomainError → (uri id fresh : Text) → Object
  sent_body e uri id fresh = (catch status_name digits (domain_error e) uri (some id) fresh).body

  domain_status_sent :
      (e : DomainError) (uri fresh : Text) (id : Option Text)
      → (catch status_name digits (domain_error e) uri id fresh).status ≡ number 422
  unfolding catch problem_of to_problem_details domain_status status_or_internal ◌===◌
  domain_status_sent e uri fresh id = refl

  respond_domain :
      {S : Type 0} (A : Type 0) (filters : List Filter) (e : DomainError) (s : S)
      (uri id fresh : Text)
      → IsOrder filters
      → is_empty id ≡ false
      → respond http_response target_of status_name digits {A = A} filters
          (throws (domain e), s)
          uri
          id
          fresh
        ≡ (problem id (number 422) (sent_body e uri id fresh), s)
  unfolding respond reply_of thrown_of
  respond_domain A filters e s uri id fresh order given = rw (select_general filters e order) (
      ap (λ r. (r, s))
        (filtered-problem status_name digits (http_response 408) A (domain_error e) uri id fresh
            given
          ∙ ap (λ status. problem id status (sent_body e uri id fresh))
              (domain_status_sent e uri fresh (some id))))

  invalid_phone_body :
      (p uri id fresh : Text)
      → is_empty id ≡ false
      → get (codes "code") (sent_body (invalid_phone p) uri id fresh)
        ≡ some (text (codes "INVALID_PHONE"))
  unfolding catch problem_of to_problem_details error_code trace_of ◌===◌
  invalid_phone_body p uri id fresh given = refl

  module _ {S : Type 0} (outside : Outside S) (member_repo : MemberRepository S)
      (classes : ClassRepository S) (safe_parse : Schema → Json → Parsed)
      (flatten : List Issue → Messages) where
    -- In the body of a request that has passed the guards, the pipe of its path and its own schema,
    -- one phone that the normalised text shows to be no E.164 number is answered with 422 and the
    -- code INVALID_PHONE, if the class is there, the phones before it are good and the request has
    -- an id, in whichever order the two filters are tried; nothing is written, whatever the members
    -- after it are.
    pub bad_phone_answered :
        (filters : List Filter) (req : Request) (path_id class_id : Text) (body : Json)
        (before : List RawMember) (raw : RawMember) (after : List RawMember)
        (inputs : List CreateMemberInput) (p : Text) (g : Tenant.Request) (s t u : S)
        (uri id fresh : Text)
        → IsOrder filters
        → both_guards outside (super_admin ∷ leader ∷ servant ∷ []) req s ≡ (ok g, t)
        → outside.parse_uuid path_id ≡ ok class_id
        → argument_of add_member_of (transform safe_parse flatten add_member_schema body)
          ≡ ok (members (before ++ raw ∷ after))
        → classes.exists class_id t ≡ (ok true, u)
        → create_inputs class_id before ≡ ok inputs
        → raw.phone ≡ some p
        → is_empty p ≡ false
        → e164 (normalise (codes "+20") p) ≡ false
        → is_empty id ≡ false
        → (sent : Object) × (respond http_response target_of status_name digits filters
              (add_members outside member_repo classes req path_id
                (argument_of add_member_of (transform safe_parse flatten add_member_schema body))
                s)
              uri
              id
              fresh
            ≡ (problem id (number 422) sent, u))
          × (get (codes "code") sent ≡ some (text (codes "INVALID_PHONE")))
    unfolding add_members add_body
    bad_phone_answered filters req path_id class_id body before raw after inputs p g s t u uri id
          fresh order guarded parsed accepted known good is_p given bad named =
        (
          sent_body (invalid_phone p) uri id fresh,
          rw
              (
                guarded,
                parsed,
                accepted,
                add_bulk_refused member_repo classes class_id before raw after inputs _ t u known
                    good (phone_refused raw p is_p given bad),
              )
              (respond_domain _ filters (invalid_phone p) u uri id fresh order named),
          invalid_phone_body p uri id fresh named,
        )
