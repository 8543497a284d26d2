-- ===== src/Validation/Laws/Refusals.antt =====
-- `formatErrors` loses no issue.
use taksees.Prelude.{
  ◌≡◌, refl, ◌∙◌, true, false, ◌||◌, List, [], ◌∷◌, ◌++◌, Text, arith, All, ◌===◌, ===_iff,
  ===_self, is_empty, includes, Bool-cases, inl, inr, if◌then◌else◌,
}
use taksees.Validation.Pipe.{
  Issue, Messages, messages_of, set_messages, copy_fields, root_key, add_roots, format_errors,
}

pub data IsAmong {A : Type 0} (a : A) : List A → Type 0 where
  here : {xs : List A} → IsAmong a (a ∷ xs)
  later : {b : A} {xs : List A} → IsAmong a xs → IsAmong a (b ∷ xs)

-- The key under which an issue is reported.
abbrev pub key_of : List Text → Text
key_of [] = root_key
key_of (key ∷ path) = key

-- The message is under the key.
abbrev pub Reports : Messages → Text → Text → Type 0
Reports out key message = includes (messages_of key out) message ≡ true

-- No entry has the key; no key comes twice.
abbrev pub Lacks : Text → Messages → Type 0
Lacks key ms = All (λ (e : Text × List Text). (e.0 === key) ≡ false) ms

abbrev pub UniqueKeys : Messages → Type 0
UniqueKeys [] = Unit
UniqueKeys ((key, list) ∷ more) = Lacks key more × UniqueKeys more

-- What Zod documents of `flatten`: the keys of an object differ, and each issue with a path is
-- under the head of its path.
pub record IsFlat (issues : List Issue) (flat : Messages) : Type 0 where
  pub unique : UniqueKeys flat
  pub complete :
      (issue : Issue) (key : Text) (path : List Text)
      → IsAmong issue issues
      → issue.path ≡ key ∷ path
      → Reports flat key issue.message

set_messages-same :
    (key : Text) (list : List Text) (out : Messages)
    → messages_of key (set_messages key list out) ≡ list
set_messages-same key list [] = rw (===_self key) refl
set_messages-same key list ((k, old) ∷ more) = elim (Bool-cases (k === key)) [
  | inl same ↦ rw same (rw same refl)
  | inr other ↦ rw other (rw other (set_messages-same key list more))
]

set_messages-other :
    (key other : Text) (list : List Text) (out : Messages)
    → (other === key) ≡ false
    → messages_of key (set_messages other list out) ≡ messages_of key out
set_messages-other key other list [] h = rw h refl
set_messages-other key other list ((k, old) ∷ more) h = elim (Bool-cases (k === other)) [
  | inl same ↦
      let e : k ≡ other = (===_iff k other).0 same in
      let not_key : (k === key) ≡ false = rw e h in rw same (rw not_key refl)
  | inr differs ↦ elim (Bool-cases (k === key)) [
    | inl found ↦ rw differs (rw found refl)
    | inr lost ↦ rw differs (rw lost (set_messages-other key other list more h))
  ]
]

includes-append :
    (xs ys : List Text) (m : Text) → includes (xs ++ ys) m ≡ (includes xs m || includes ys m)
includes-append [] ys m = refl
includes-append (x ∷ xs) ys m = ground (arith, includes-append xs ys m)

copy_fields-other :
    (key : Text) (ms out : Messages)
    → Lacks key ms
    → messages_of key (copy_fields ms out) ≡ messages_of key out
unfolding copy_fields
copy_fields-other key [] out h = refl
copy_fields-other key ((k, list) ∷ more) out (differs, h) = elim (Bool-cases (is_empty list)) [
  | inl none ↦ rw none (copy_fields-other key more out h)
  | inr some ↦ rw some (
      copy_fields-other key more (set_messages k list out) h
      ∙ set_messages-other key k list out differs)
]

nonempty : (list : List Text) (m : Text) → includes list m ≡ true → is_empty list ≡ false
nonempty [] m h = cc
nonempty (x ∷ list) m h = refl

copy_fields-Reports :
    (key m : Text) (ms out : Messages)
    → UniqueKeys ms
    → Reports ms key m
    → Reports (copy_fields ms out) key m
unfolding copy_fields
copy_fields-Reports key m [] out u h = cc
copy_fields-Reports key m ((k, list) ∷ more) out (lacks, u) h = elim (Bool-cases (k === key)) [
  | inl same ↦
      let e : k ≡ key = (===_iff k key).0 same in
      let given : includes list m ≡ true = rw same at h in
      rw (nonempty list m given) (
        rw (copy_fields-other key more (set_messages k list out) (rw e at lacks))
          (rw e (rw (set_messages-same key list out) given)))
  | inr other ↦
      copy_fields-Reports key m more (if is_empty list then out else set_messages k list out) u
        (rw other at h)
]

add_root-Reports :
    (key m added : Text) (out : Messages)
    → Reports out key m
    → Reports (set_messages root_key (messages_of root_key out ++ added ∷ []) out) key m
add_root-Reports key m added out h = elim (Bool-cases (root_key === key)) [
  | inl same ↦
      let e : root_key ≡ key = (===_iff root_key key).0 same in
      rw (← e) (
        rw (set_messages-same root_key (messages_of root_key out ++ added ∷ []) out)
          (includes-append (messages_of root_key out) (added ∷ []) m ∙ rw (rw (← e) at h) refl))
  | inr other ↦ rw (set_messages-other key root_key _ out other) h
]

add_roots-Reports :
    (key m : Text) (issues : List Issue) (out : Messages)
    → Reports out key m
    → Reports (add_roots issues out) key m
unfolding add_roots
add_roots-Reports key m [] out h = h
add_roots-Reports key m (issue ∷ issues) out h = elim (Bool-cases (is_empty issue.path)) [
  | inl root ↦
      rw root (add_roots-Reports key m issues _ (add_root-Reports key m issue.message out h))
  | inr deep ↦ rw deep (add_roots-Reports key m issues out h)
]

added_root :
    (m : Text) (out : Messages)
    → Reports (set_messages root_key (messages_of root_key out ++ m ∷ []) out) root_key m
added_root m out =
    rw (set_messages-same root_key (messages_of root_key out ++ m ∷ []) out)
      (includes-append (messages_of root_key out) (m ∷ []) m ∙ ground (arith, ===_self m))

add_roots-root :
    (issue : Issue) (issues : List Issue) (out : Messages)
    → IsAmong issue issues
    → issue.path ≡ []
    → Reports (add_roots issues out) root_key issue.message
unfolding add_roots
add_roots-root issue _ out (here {xs}) e =
    rw e (add_roots-Reports root_key issue.message xs _ (added_root issue.message out))
add_roots-root issue _ out (later {b} {xs} h) e = add_roots-root issue xs _ h e

-- If `flatten` puts each issue with a path under the head of the path, and no key comes twice, then
-- `formatErrors` reports every issue: its message is under the head of its path, and under `_root`
-- if it has none.
pub format_errors_complete :
    (flatten : List Issue → Messages) (issues : List Issue) (issue : Issue)
    → IsFlat issues (flatten issues)
    → IsAmong issue issues
    → Reports (format_errors flatten issues) (key_of issue.path) issue.message
unfolding format_errors
format_errors_complete flatten issues issue flat among = go issue.path refl
  where
    go :
        (path : List Text)
        → issue.path ≡ path
        → Reports (add_roots issues (copy_fields (flatten issues) [])) (key_of path) issue.message
    go [] e = add_roots-root issue issues _ among e
    go (key ∷ path) e = add_roots-Reports key issue.message issues _ (
        copy_fields-Reports key issue.message (flatten issues) [] flat.unique
          (flat.complete issue key path among e))
