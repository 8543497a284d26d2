-- ===== src/Validation/Checker.antt =====
-- A validator in place of Zod: it lets a value through unchanged if it is an output of the schema
-- already, and refuses what a default or a transformation would change.
use taksees.Prelude.{
  ℕ, ◌≡◌, refl, inl, inr, Bool, true, false, ◌&&◌, ◌||◌, List, [], ◌∷◌, Text, arith, leb, includes,
  starts_with, length, Bool-cases, if◌then◌else◌,
}
use taksees.Validation.{
  Json, undefined, null, boolean, integer, text, array, object, Items, no_items, item, Members,
  member_at, count_items, Format, TextCheck, min_length, max_length, has_format, begins,
  NumberCheck, at_least, at_most, Schema, string, coerced_int, bool, enum, optional, nullable,
  default, array_of, object_of, union, refined, Fields, no_more, field, PassesAll, IsWithin,
  EachItem, names_of, has_only, Output, Outputs,
}
use taksees.Validation.Pipe.{Parsed, success, failure}
use taksees.Validation.Laws.Requests.{IsZod}

abbrev within : List NumberCheck → ℕ → Bool
within [] n = true
within (at_least m ∷ checks) n = leb m n && within checks n
within (at_most m ∷ checks) n = leb n m && within checks n

within-IsWithin : (checks : List NumberCheck) (n : ℕ) → within checks n ≡ true → IsWithin checks n
within-IsWithin [] n h = tt
within-IsWithin (at_least m ∷ checks) n h = (ground arith, within-IsWithin checks n (ground arith))
within-IsWithin (at_most m ∷ checks) n h = (ground arith, within-IsWithin checks n (ground arith))

abbrev is_undefined : Json → Bool
is_undefined undefined = true
is_undefined _ = false

is_undefined-eq : (v : Json) → is_undefined v ≡ true → v ≡ undefined
is_undefined-eq undefined h = refl
is_undefined-eq _ h = cc

abbrev is_null : Json → Bool
is_null null = true
is_null _ = false

is_null-eq : (v : Json) → is_null v ≡ true → v ≡ null
is_null-eq null h = refl
is_null-eq _ h = cc

abbrev each_item : (Json → Bool) → Items → Bool
each_item test no_items = true
each_item test (item v more) = test v && each_item test more

each_item-EachItem :
    (P : Json → Type 0) (test : Json → Bool)
    → ((v : Json) → test v ≡ true → P v)
    → (vs : Items) → each_item test vs ≡ true
    → EachItem P vs
each_item-EachItem P test sound no_items h = tt
each_item-EachItem P test sound (item v more) h =
    (sound v (ground arith), each_item-EachItem P test sound more (ground arith))

module _ (matches : Format → Text → Bool) where
  abbrev passes : List TextCheck → Text → Bool
  passes [] s = true
  passes (min_length n ∷ checks) s = leb n (length s) && passes checks s
  passes (max_length n ∷ checks) s = leb (length s) n && passes checks s
  passes (has_format f ∷ checks) s = matches f s && passes checks s
  passes (begins prefix ∷ checks) s = starts_with s prefix && passes checks s

  passes-PassesAll :
      (checks : List TextCheck) (s : Text) → passes checks s ≡ true → PassesAll matches checks s
  passes-PassesAll [] s h = tt
  passes-PassesAll (min_length n ∷ checks) s h =
      (ground arith, passes-PassesAll checks s (ground arith))
  passes-PassesAll (max_length n ∷ checks) s h =
      (ground arith, passes-PassesAll checks s (ground arith))
  passes-PassesAll (has_format f ∷ checks) s h =
      (ground arith, passes-PassesAll checks s (ground arith))
  passes-PassesAll (begins prefix ∷ checks) s h =
      (ground arith, passes-PassesAll checks s (ground arith))

  unfoldable mutual
    pub accepts : Schema → Json → Bool
    accepts (string checks) (text s) = passes checks s
    accepts (coerced_int checks) (integer n) = within checks n
    accepts bool (boolean b) = true
    accepts (enum names) (text s) = includes names s
    accepts (optional schema) v = is_undefined v || accepts schema v
    accepts (nullable schema) v = is_null v || accepts schema v
    accepts (default value schema) v = accepts schema v
    accepts (array_of schema least most) (array vs) =
        leb least (count_items vs)
        && leb (count_items vs) most
        && each_item (λ w. accepts schema w) vs
    accepts (object_of fields) (object ms) =
        has_only (names_of fields) ms && accepts_fields fields ms
    accepts (union a b) v = accepts a v || accepts b v
    accepts (refined test message schema) v = test v && accepts schema v
    accepts _ _ = false

    pub accepts_fields : Fields → Members → Bool
    accepts_fields no_more ms = true
    accepts_fields (field key schema more) ms =
        accepts schema (member_at key ms) && accepts_fields more ms

  mutual
    unfolding accepts

    pub accepts-Output :
        (schema : Schema) (v : Json) → accepts schema v ≡ true → Output matches schema v
    accepts-Output (string checks) (text s) h = (s, refl, passes-PassesAll checks s h)
    accepts-Output (coerced_int checks) (integer n) h = inl (n, refl, within-IsWithin checks n h)
    accepts-Output bool (boolean b) h = (b, refl)
    accepts-Output (enum names) (text s) h = (s, refl, h)
    accepts-Output (optional schema) v h = elim (Bool-cases (is_undefined v)) [
      | inl e ↦ inl (is_undefined-eq v e)
      | inr e ↦ inr (accepts-Output schema v (rw e at h))
    ]
    accepts-Output (nullable schema) v h = elim (Bool-cases (is_null v)) [
      | inl e ↦ inl (is_null-eq v e)
      | inr e ↦ inr (accepts-Output schema v (rw e at h))
    ]
    accepts-Output (default value schema) v h = inr (accepts-Output schema v h)
    accepts-Output (array_of schema least most) (array vs) h = (
      vs,
      refl,
      ground arith,
      ground arith,
      each_item-EachItem (λ w. Output matches schema w) (λ w. accepts schema w)
          (λ w k. accepts-Output schema w k) vs (ground arith),
    )
    accepts-Output (object_of fields) (object ms) h =
        (ms, refl, ground arith, accepts-Outputs fields ms (ground arith))
    accepts-Output (union a b) v h = elim (Bool-cases (accepts a v)) [
      | inl e ↦ inl (accepts-Output a v e)
      | inr e ↦ inr (accepts-Output b v (rw e at h))
    ]
    accepts-Output (refined test message schema) v h =
        (ground arith, accepts-Output schema v (ground arith))
    accepts-Output _ _ h = cc

    accepts-Outputs :
        (fields : Fields) (ms : Members)
        → accepts_fields fields ms ≡ true
        → Outputs matches fields ms
    accepts-Outputs no_more ms h = tt
    accepts-Outputs (field key schema more) ms h = (
      accepts-Output schema (member_at key ms) (ground arith),
      accepts-Outputs more ms (ground arith),
    )

  unfoldable pub check : Schema → Json → Parsed
  check schema v = if accepts schema v then success v else failure []

  pub check-IsZod : IsZod check matches
  unfolding check
  check-IsZod = record {
    sound = λ schema value out h. elim (Bool-cases (accepts schema value)) [
      | inl e ↦
          let same : success value ≡ success out = rw e at h in
          let eq : value ≡ out = cc in rw (← eq) (accepts-Output schema value e)
      | inr e ↦ cc (rw e at h)
    ];
  }
