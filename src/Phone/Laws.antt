-- ===== src/Phone/Laws.antt =====
-- The theorems about `Phone.parse`.
use taksees.Prelude.{
  ◌≤◌, all-append, is_digit-not_space, ℕ, ◌≡◌, refl, sym, ap, ◌∙◌, ◌↔◌, true, false, [], ◌∷◌, ◌++◌,
  Option, none, some, Text, codes, arith, all, is_digit, is_space, is_empty, trim, is_empty-trim,
  Bool-cases, inl, inr,
}
use taksees.Errors.{Result, ok, throws}
use taksees.Phone.{
  Phone, e164, is_format, strip, normalise, international, with_country, parse, parse_default,
}
use taksees.Phone.Regex.{IsE164, plus, e164_iff, all-is_digit, strip_digits, strip_plus}

-- Inversion of a successful parse.
parse-ok :
    (input country : Text) (p : Phone)
    → parse input country ≡ ok p
    → (is_empty (trim input) ≡ false)
      × (e164 (normalise country input) ≡ true)
      × (p.value ≡ normalise country input)
unfolding parse
parse-ok input country p h = ground arith

-- A successful parse yields a number in E.164 form: a plus sign, a digit other than 0, and
-- digits, 7 to 15 digits in all, whatever the input and the default country code.
pub parse-IsE164 : (input country : Text) (p : Phone) → parse input country ≡ ok p → IsE164 p.value
parse-IsE164 input country p h =
    let (_, fits, same) = parse-ok input country p h in rw same ((e164_iff _).0 fits)

international-plus : (s : Text) → international (b'+' ∷ s) ≡ b'+' ∷ s
unfolding international
international-plus s = refl

with_country-plus : (country s : Text) → with_country country (b'+' ∷ s) ≡ b'+' ∷ s
unfolding with_country
with_country-plus country s = refl

normalise_of_IsE164 : (t country : Text) → IsE164 t → normalise country t ≡ t
unfolding normalise
normalise_of_IsE164 _ country (plus d rest lo hi digits _ _) =
    rw (strip_plus (d ∷ rest) (all-is_digit (d ∷ rest) ((omega arith, hi), digits)))
      (rw international-plus (with_country-plus country (d ∷ rest)))

not_blank : (c : ℕ) (s : Text) → is_space c ≡ false → is_empty (trim (c ∷ s)) ≡ false
not_blank c s h = is_empty-trim (c ∷ s) ∙ rw h

plus-not_space : is_space b'+' ≡ false
unfolding is_space
plus-not_space = refl

IsE164-not_blank : (t : Text) → IsE164 t → is_empty (trim t) ≡ false
IsE164-not_blank _ (plus d rest _ _ _ _ _) = not_blank b'+' (d ∷ rest) plus-not_space

-- Every number in E.164 form is a fixed point: parsing it succeeds and gives it back unchanged,
-- under any default country code.
pub parse_of_IsE164 : (t country : Text) → IsE164 t → parse t country ≡ ok (record { value = t })
unfolding parse
parse_of_IsE164 t country h =
    rw (normalise_of_IsE164 t country h, (e164_iff t).1 h) (rw (IsE164-not_blank t h))

space-format : (c : ℕ) → is_space c ≡ true → is_format c ≡ true
unfolding is_format
space-format c h = ground arith

strip-insert : (a b : Text) (c : ℕ) → is_format c ≡ true → strip (a ++ c ∷ b) ≡ strip (a ++ b)
unfolding strip
strip-insert [] b c h = rw h
strip-insert (x ∷ a) b c h = rw (strip-insert a b c h)

all_space-insert :
    (a b : Text) (c : ℕ) → all is_space (a ++ b) ≡ false → all is_space (a ++ c ∷ b) ≡ false
all_space-insert [] b c h = ground arith
all_space-insert (x ∷ a) b c h = ground (arith, all_space-insert a b c)

strip_of_blank : (s : Text) → all is_space s ≡ true → strip s ≡ []
unfolding strip
strip_of_blank [] h = refl
strip_of_blank (c ∷ s) h = ground (arith, space-format c, strip_of_blank s)

-- Only white space gives the bare country code, which is no number.
egypt_of_blank : (s : Text) → strip s ≡ [] → e164 (normalise (codes "+20") s) ≡ false
unfolding normalise international with_country e164 is_digit
egypt_of_blank s h = rw h

parse_by_strip :
    (s t country : Text) (p : Phone)
    → strip s ≡ strip t
    → is_empty (trim t) ≡ false
    → parse s country ≡ ok p
    → parse t country ≡ ok p
unfolding parse
parse_by_strip s t country p same given h =
    let (_, fits, value) = parse-ok s country p h in
    let e : normalise country t ≡ normalise country s = unfold normalise in rw same in
    rw (given, e, fits) (ap (λ v. ok (record { value = v })) (sym value))

insert-not_blank :
    (a b : Text) (c : ℕ) → is_empty (trim (a ++ b)) ≡ false → is_empty (trim (a ++ c ∷ b)) ≡ false
insert-not_blank a b c h =
    is_empty-trim (a ++ c ∷ b) ∙ all_space-insert a b c (sym (is_empty-trim (a ++ b)) ∙ h)

-- A text that is accepted by the default country code is not blank without its format characters.
not_blank_of_ok :
    (s t : Text) (p : Phone)
    → strip s ≡ strip t
    → parse s (codes "+20") ≡ ok p
    → is_empty (trim t) ≡ false
not_blank_of_ok s t p same h = elim (Bool-cases (is_empty (trim t))) [
  | inr given ↦ given
  | inl blank ↦
      let (_, fits, _) = parse-ok s (codes "+20") p h in
      cc (fits, egypt_of_blank s (same ∙ strip_of_blank t (sym (is_empty-trim t) ∙ blank)))
]

-- A white space, dash, parenthesis or dot anywhere in the input changes nothing: with the default
-- country code, the text is accepted without it exactly when it is accepted with it, and with the
-- same number.
pub parse_default-insert :
    (a b : Text) (c : ℕ) (p : Phone)
    → is_format c ≡ true
    → (parse_default (a ++ b) ≡ ok p) ↔ (parse_default (a ++ c ∷ b) ≡ ok p)
unfolding parse_default
parse_default-insert a b c p format = (
  λ h.
      parse_by_strip (a ++ b) (a ++ c ∷ b) _ p (sym (strip-insert a b c format))
        (insert-not_blank a b c (parse-ok (a ++ b) _ p h).0) h,
  λ h.
      parse_by_strip (a ++ c ∷ b) (a ++ b) _ p (strip-insert a b c format)
        (not_blank_of_ok (a ++ c ∷ b) (a ++ b) p (strip-insert a b c format) h) h,
)

-- The number that a parse gives, if it succeeds.
abbrev pub value_of : Result Phone → Option Text
value_of (ok p) = some p.value
value_of (throws e) = none

value_of-parse :
    (s t country country' : Text)
    → is_empty (trim s) ≡ false
    → is_empty (trim t) ≡ false
    → normalise country s ≡ normalise country' t
    → value_of (parse s country) ≡ value_of (parse t country')
unfolding parse
value_of-parse s t country country' hs ht same = rw (hs, ht, same) (ground arith)

zero_digit : is_digit b'0' ≡ true
unfolding is_digit
zero_digit = refl

zero_zero : (n : Text) → all is_digit n ≡ true → strip (codes "00" ++ n) ≡ codes "00" ++ n
zero_zero n h = strip_digits (codes "00" ++ n) (ground (arith, zero_digit))

not_blank_digits : (d : ℕ) (m : Text) → is_digit d ≡ true → is_empty (trim (d ∷ m)) ≡ false
not_blank_digits d m h = not_blank d m (is_digit-not_space d h)

normalise_zero_zero :
    (country n : Text) → all is_digit n ≡ true → normalise country (codes "00" ++ n) ≡ b'+' ∷ n
unfolding normalise international with_country
normalise_zero_zero country n h = rw (zero_zero n h)

normalise_plus :
    (country n : Text) → all is_digit n ≡ true → normalise country (b'+' ∷ n) ≡ b'+' ∷ n
unfolding normalise international with_country
normalise_plus country n h = rw (strip_plus n h)

module _ (country m : Text) (d : ℕ) (lo : b'1' ≤ d) (hi : d ≤ b'9')
    (h : all is_digit m ≡ true) where
  digit : is_digit d ≡ true
  unfolding is_digit
  digit = ground arith

  normalise_trunk : normalise country (b'0' ∷ d ∷ m) ≡ country ++ d ∷ m
  unfolding normalise international with_country
  normalise_trunk =
      rw (strip_digits (b'0' ∷ d ∷ m) (ground (arith, zero_digit, digit))) (ground arith)

  normalise_subscriber : normalise country (d ∷ m) ≡ country ++ d ∷ m
  unfolding normalise international with_country
  normalise_subscriber = rw (strip_digits (d ∷ m) (ground (arith, digit))) (ground arith)

-- The ways to write one number agree, for digits that do not begin with 0: behind `00` the number
-- is read as behind `+`, and with the trunk 0, without it, and behind the country code, a local
-- number gives one result, a rejection included.
pub parse_prefixes :
    (country m : Text) (d : ℕ)
    → b'1' ≤ d
    → d ≤ b'9'
    → all is_digit m ≡ true
    → all is_digit country ≡ true
    → let plus_country = b'+' ∷ country in
      (value_of (parse (codes "00" ++ d ∷ m) plus_country)
        ≡ value_of (parse (b'+' ∷ d ∷ m) plus_country))
      × (value_of (parse (b'0' ∷ d ∷ m) plus_country) ≡ value_of (parse (d ∷ m) plus_country))
      × (value_of (parse (d ∷ m) plus_country)
          ≡ value_of (parse (plus_country ++ d ∷ m) plus_country))
parse_prefixes country m d lo hi h k = (
  value_of-parse (codes "00" ++ d ∷ m) (b'+' ∷ d ∷ m) _ _ (not_blank_digits b'0' _ zero_digit)
      (not_blank b'+' _ plus-not_space)
      (normalise_zero_zero _ (d ∷ m) (ground (arith, digit country m d lo hi h))
        ∙ sym (normalise_plus _ (d ∷ m) (ground (arith, digit country m d lo hi h)))),
  value_of-parse (b'0' ∷ d ∷ m) (d ∷ m) _ _ (not_blank_digits b'0' _ zero_digit)
      (not_blank_digits d _ (digit country m d lo hi h))
      (normalise_trunk _ m d lo hi h ∙ sym (normalise_subscriber _ m d lo hi h)),
  value_of-parse (d ∷ m) (b'+' ∷ country ++ d ∷ m) _ _
      (not_blank_digits d _ (digit country m d lo hi h)) (not_blank b'+' _ plus-not_space)
      (normalise_subscriber _ m d lo hi h
        ∙ sym (
            normalise_plus _ (country ++ d ∷ m)
              (all-append is_digit country (d ∷ m) ∙ ground (arith, digit country m d lo hi h)))),
)
