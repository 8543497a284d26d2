-- ===== src/Filters/Laws.antt =====
-- The status that the exception filters answer with.
use taksees.Prelude.{
  ℕ, ◌≡◌, ◌≢◌, refl, sym, ap, ◌∙◌, Bool, true, false, [], ◌∷◌, Option, none, some, Text, codes,
  arith, ◌===◌, ===_iff, Bool-cases, inl, inr, if◌then◌else◌,
}
use taksees.Errors.{message}
use taksees.Filters.{Value, null, text, number, texts, object, json, Object, set, get, spread}
use taksees.Filters.Http.{
  Response, plain, fields, http_exception, is_dropped, extras_of, base_of, problem_of,
  status_or_internal, catch,
}

abbrev pub or_else : Option Value → Option Value → Option Value
or_else none b = b
or_else (some v) b = some v

or_else_choice :
    (a : Option Value) (b : Bool) (v : Value) (c : Option Value)
    → or_else a (if b then some v else c) ≡ or_else (or_else a (if b then some v else none)) c
or_else_choice none true v c = refl
or_else_choice none false v c = refl
or_else_choice (some w) b v c = refl

-- The last value that the fields give a key.
abbrev pub last : Text → Object → Option Value
last key [] = none
last key ((k, v) ∷ o) = let rest = last key o in or_else rest (if k === key then some v else none)

abbrev pub fields_of : Response → Object
fields_of (plain s) = []
fields_of (fields o) = o

get-set :
    (key k : Text) (v : Value) (o : Object)
    → get key (set k v o) ≡ (if k === key then some v else get key o)
get-set key k v [] = refl
get-set key k v ((k', w) ∷ o) = elim (Bool-cases (k' === k)) [
  | inl e ↦ let same : k' ≡ k = (===_iff k' k).0 e in ground (arith, ap (λ x. x === key) same)
  | inr e ↦ elim (Bool-cases (k === key)) [
    | inl f ↦
        let same : k ≡ key = (===_iff k key).0 f in
        let other : (k' === key) ≡ false = ap (λ x. k' === x) (sym same) ∙ e in
        ground (arith, get-set key k v o)
    | inr f ↦ ground (arith, get-set key k v o)
  ]
]

get-spread :
    (key : Text) (o extras : Object)
    → get key (spread o extras) ≡ or_else (last key extras) (get key o)
get-spread key o [] = refl
get-spread key o ((k, v) ∷ extras) =
    get-spread key (set k v o) extras
    ∙ (ap (or_else (last key extras)) (get-set key k v o)
        ∙ or_else_choice (last key extras) (k === key) v (get key o))

or_else-none : (a : Option Value) → or_else a none ≡ a
or_else-none none = refl
or_else-none (some v) = refl

kept_status : is_dropped (codes "status") ≡ false
unfolding ◌===◌
kept_status = refl

last-extras_of : (o : Object) → last (codes "status") (extras_of o) ≡ last (codes "status") o
unfolding extras_of
last-extras_of [] = refl
last-extras_of ((k, v) ∷ o) = elim (Bool-cases (k === codes "status")) [
  | inl e ↦
      let same : k ≡ codes "status" = (===_iff k (codes "status")).0 e in
      rw (same, kept_status)
        (ap (λ l. or_else l (if codes "status" === codes "status" then some v else none))
          (last-extras_of o))
  | inr e ↦ elim (Bool-cases (is_dropped k)) [
    | inl d ↦ rw (d, e) (last-extras_of o ∙ sym (or_else-none (last (codes "status") o)))
    | inr d ↦ rw (d, e) (ap (λ l. or_else l none) (last-extras_of o))
  ]
]

module _ (status_name : ℕ → Option Text) (digits : ℕ → Text) where
  base_status :
      (d : Text) (status : ℕ) (detail : Value) (uri trace_id : Text)
      → get (codes "status") (base_of status_name d status detail uri trace_id)
        ≡ some (number status)
  unfolding base_of ◌===◌
  base_status d status detail uri trace_id = refl

  -- The status that is sent for an HTTP exception: the last `status` field of its body, or else its
  -- own.
  sent_status :
      (status : ℕ) (message : Text) (response : Response) (uri : Text) (request_id : Option Text)
      (fresh : Text)
      → (catch status_name digits
          (http_exception status message response)
          uri
          request_id
          fresh).status
        ≡ status_or_internal status_name digits
            (or_else (last (codes "status") (fields_of response)) (some (number status)))
  unfolding catch problem_of base_of
  sent_status status message response uri request_id fresh =
      ap (status_or_internal status_name digits) (
        get-spread (codes "status") _ (extras_of (fields_of response))
        ∙ (rw (last-extras_of (fields_of response)) (
            ap (or_else (last (codes "status") (fields_of response)))
              (base_status _ status _ uri _))))

  given_status : (v : Value) → v ≢ null → status_or_internal status_name digits (some v) ≡ v
  unfolding status_or_internal
  given_status null h = absurd (h refl)
  given_status (text t) h = refl
  given_status (number n) h = refl
  given_status (texts ss) h = refl
  given_status (object o) h = refl
  given_status (json t) h = refl

  -- An HTTP exception whose body has no `status` field is answered with its own status.
  pub http_status_kept :
      (status : ℕ) (message : Text) (response : Response) (uri : Text) (request_id : Option Text)
      (fresh : Text)
      → last (codes "status") (fields_of response) ≡ none
      → (catch status_name digits
          (http_exception status message response)
          uri
          request_id
          fresh).status
        ≡ number status
  unfolding status_or_internal
  http_status_kept status message response uri request_id fresh h =
      sent_status status message response uri request_id fresh ∙ rw h refl

  -- If the body of an HTTP exception has a `status` field that is not null, the value of that field
  -- is sent as the status, whatever it is, and the exception's own status is lost.
  pub http_status_overridden :
      (status : ℕ) (message : Text) (response : Response) (uri : Text) (request_id : Option Text)
      (fresh : Text) (v : Value)
      → last (codes "status") (fields_of response) ≡ some v
      → v ≢ null
      → (catch status_name digits
          (http_exception status message response)
          uri
          request_id
          fresh).status
        ≡ v
  unfolding status_or_internal
  http_status_overridden status message response uri request_id fresh v h given =
      sent_status status message response uri request_id fresh ∙ rw h (given_status v given)
