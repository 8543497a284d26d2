-- ===== src/Validation/Laws/Requests.antt =====
-- What reaches the services through the schemas.
use taksees.Prelude.{
  ℕ, zero, suc, ◌-◌, ◌*◌, ◌≤◌, ◌≡◌, refl, ap, ◌⊎◌, inl, inr, Bool, true, List, Option, none, some,
  Text, arith, All, length,
}
use taksees.Errors.{Result, ok}
use taksees.Classes.Interfaces.{
  CreateClassInput, UpdateClassInput, ListClassesFilter, ListMembersFilter, ClassRepository,
  ServantClassRepository, UserDirectory,
}
use taksees.Classes.Services.MemberInput.{RawMember, RawUpdate}
use taksees.Classes.Services.ServantService.{AssignResult}
use taksees.Classes.Services.ServantService
use taksees.Classes.Controllers.{Request, Outside, AddBody, single, members, Query, assign_servants}
use taksees.Classes.Controllers.Laws.{assign_servants_authorised}
use taksees.Classes.Repositories.Paging.{skip, pos}
use taksees.Validation.{Json, Format, uuid, Schema, Output}
use taksees.Validation.Dto.{
  create_class_schema, update_class_schema, list_classes_query_schema, add_member_schema,
  update_member_schema, list_members_query_schema, assign_servant_schema,
}
use taksees.Validation.Decode.{
  create_class_of, update_class_of, list_classes_of, add_member_of, update_member_of,
  list_members_of, assign_servant_of,
}
use taksees.Validation.Pipe.{
  Issue, Parsed, success, failure, Messages, Outcome, passed, refused, of_parsed, transform,
  read_or, argument_of,
}
use taksees.Validation.Laws.Bounds.{
  create_class_of-Reads, update_class_of-Reads, list_classes_page, list_members_page,
  update_member_of-Reads, add_member_of-HasMembers, assign_servant_ids,
}

-- The schemas of the requests, with the type that each infers and what takes a value apart.
pub data Dto : Type 0 where
  creates_class updates_class lists_classes adds_member updates_member lists_members
        assigns_servants :
      Dto

abbrev pub schema_of : Dto → Schema
schema_of creates_class = create_class_schema
schema_of updates_class = update_class_schema
schema_of lists_classes = list_classes_query_schema
schema_of adds_member = add_member_schema
schema_of updates_member = update_member_schema
schema_of lists_members = list_members_query_schema
schema_of assigns_servants = assign_servant_schema

abbrev pub TypeOf : Dto → Type 0
TypeOf creates_class = CreateClassInput
TypeOf updates_class = UpdateClassInput
TypeOf lists_classes = Query ListClassesFilter
TypeOf adds_member = AddBody
TypeOf updates_member = RawUpdate
TypeOf lists_members = Query ListMembersFilter
TypeOf assigns_servants = List Text

abbrev pub read_of : (d : Dto) → Json → Option (TypeOf d)
read_of creates_class = create_class_of
read_of updates_class = update_class_of
read_of lists_classes = list_classes_of
read_of adds_member = add_member_of
read_of updates_member = update_member_of
read_of lists_members = list_members_of
read_of assigns_servants = assign_servant_of

-- What Zod promises of `safeParse`: the data that it returns are an output of the schema.
pub record IsZod (safe_parse : Schema → Json → Parsed) (matches : Format → Text → Bool)
    : Type 0 where
  pub sound :
      (schema : Schema) (value out : Json)
      → safe_parse schema value ≡ success out
      → Output matches schema out

skip_pos : (page limit : ℕ) → 1 ≤ page → skip page limit ≡ pos ((page - 1) * limit)
unfolding skip
skip_pos zero limit h = absurd (omega arith)
skip_pos (suc page) limit h =
    let e : page ≡ suc page - 1 = omega arith in ap (λ n. pos (n * limit)) e

read_or-ok : {A : Type 0} (o : Option A) {a : A} → read_or o ≡ ok a → o ≡ some a
read_or-ok none h = cc
read_or-ok (some b) h = cc

argument_of-ok :
    {A : Type 0} (read : Json → Option A) (o : Outcome) {a : A}
    → argument_of read o ≡ ok a
    → (out : Json) × (o ≡ passed out) × (read out ≡ some a)
argument_of-ok read (passed out) h = (out, refl, read_or-ok (read out) h)
argument_of-ok read (refused message errors) h = cc

module _ (safe_parse : Schema → Json → Parsed) (matches : Format → Text → Bool)
    (lawful : IsZod safe_parse matches) (flatten : List Issue → Messages) where
  of_parsed-passed :
      (p : Parsed) {out : Json} → of_parsed safe_parse flatten p ≡ passed out → p ≡ success out
  of_parsed-passed (success v) h = cc
  of_parsed-passed (failure issues) h = cc

  passed-Output :
      (schema : Schema) (value out : Json)
      → transform safe_parse flatten schema value ≡ passed out
      → Output matches schema out
  unfolding transform
  passed-Output schema value out h =
      lawful.sound schema value out (of_parsed-passed (safe_parse schema value) h)

  -- If Zod's `safeParse` gives an output of the schema, then whatever the validation pipe lets
  -- through for one of the request schemas has the type that the handler takes it for, fields that
  -- may be left out or null included.
  pub transform-typed :
      (d : Dto) (value out : Json)
      → transform safe_parse flatten (schema_of d) value ≡ passed out
      → (x : TypeOf d) × (read_of d out ≡ some x)
  transform-typed d value out h = typed d out (passed-Output (schema_of d) value out h)
    where
      typed :
          (d : Dto) (out : Json)
          → Output matches (schema_of d) out
          → (x : TypeOf d) × (read_of d out ≡ some x)
      typed creates_class out o = create_class_of-Reads matches out o
      typed updates_class out o = update_class_of-Reads matches out o
      typed lists_classes out o = let (q, e, _, _, _) = list_classes_page matches out o in (q, e)
      typed adds_member out o = elim (add_member_of-HasMembers matches out o) [
        | inl (raw, e) ↦ (single raw, e)
        | inr (rows, e, _, _) ↦ (members rows, e)
      ]
      typed updates_member out o = update_member_of-Reads matches out o
      typed lists_members out o = let (q, e, _, _, _) = list_members_page matches out o in (q, e)
      typed assigns_servants out o =
          let (ids, e, _, _, _) = assign_servant_ids matches out o in (ids, e)

  abbrev argument : {A : Type 0} → Schema → (Json → Option A) → Json → Result A
  argument schema read value = argument_of read (transform safe_parse flatten schema value)

  argument-Output :
      {A : Type 0} (schema : Schema) (read : Json → Option A) (value : Json) (a : A)
      → argument schema read value ≡ ok a
      → (out : Json) × Output matches schema out × (read out ≡ some a)
  argument-Output schema read value a h =
      let (out, e, f) = argument_of-ok read (transform safe_parse flatten schema value) h in
      (out, passed-Output schema value out e, f)

  -- If Zod's `safeParse` gives an output of the schema, a query of the members' list that reaches
  -- the handler asks for a page of 1 to 100 rows, and the repository skips the rows of the pages
  -- before it, a number that is never below zero.
  pub list_query_bounded :
      (value : Json) (q : Query ListMembersFilter)
      → argument_of list_members_of (transform safe_parse flatten list_members_query_schema value)
        ≡ ok q
      → (1 ≤ q.limit) × (q.limit ≤ 100) × (skip q.page q.limit ≡ pos ((q.page - 1) * q.limit))
  list_query_bounded value q h =
      let (out, o, e) = argument-Output list_members_query_schema list_members_of value q h in
      let (q', e', page, least, most) = list_members_page matches out o in
      let same : q' ≡ q = cc in rw (← same) (least, most, skip_pos q'.page q'.limit page)

  -- If Zod's `safeParse` gives an output of the schema, a body of `POST members` that reaches the
  -- handler is one member, or 1 to 200 of them; a body of one member is never taken for a list,
  -- whatever other keys the request had.
  pub add_body_bounded :
      (value : Json) (body : AddBody)
      → argument_of add_member_of (transform safe_parse flatten add_member_schema value) ≡ ok body
      → ((raw : RawMember) × (body ≡ single raw))
        ⊎ ((rows : List RawMember) × (body ≡ members rows)
            × (1 ≤ length rows)
            × (length rows ≤ 200))
  add_body_bounded value body h =
      let (out, o, e) = argument-Output add_member_schema add_member_of value body h in
      elim (add_member_of-HasMembers matches out o) [
        | inl (raw, f) ↦ inl (raw, cc)
        | inr (rows, f, least, most) ↦ inr (rows, cc, least, most)
      ]

  module _ {S : Type 0} (outside : Outside S) where
    -- If Zod's `safeParse` gives an output of the schema and `POST servants` returns, the result is
    -- the service's for 1 to 50 users, and every one of their ids has Zod's format of a UUID: the
    -- id of a user without that format is never assigned.
    pub assigned_ids_uuids :
        (req : Request) (classes : ClassRepository S) (mapping : ServantClassRepository S)
        (users : UserDirectory S) (path_id : Text) (value : Json) (s t : S) (r : AssignResult)
        → assign_servants outside classes mapping users req path_id
            (argument_of assign_servant_of
              (transform safe_parse flatten assign_servant_schema value))
            s
          ≡ (ok r, t)
        → (id : Text) × (ids : List Text) × (ServantService.assign classes mapping users id ids s
            ≡ (ok r, t))
          × (1 ≤ length ids)
          × (length ids ≤ 50)
          × All (λ user_id. matches uuid user_id ≡ true) ids
    assigned_ids_uuids req classes mapping users path_id value s t r h =
        let (_, _, (id, ids, _, body, run)) =
          assign_servants_authorised outside req classes mapping users path_id _ s t r h in
        let (out, o, e) = argument-Output assign_servant_schema assign_servant_of value ids body in
        let (found, f, least, most, are) = assign_servant_ids matches out o in
        let same : found ≡ ids = cc in
        (id, ids, run, rw same at least, rw same at most, rw same at are)
