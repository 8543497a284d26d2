-- ===== src/Phone/Tests.antt =====
-- Runs of `Phone.parse` on the inputs of phone.vo.spec.ts, and the theorems at concrete inputs.
use taksees.Prelude.{
  ◌≡◌, refl, ◌↔◌, true, false, [], ◌∷◌, Option, none, some, Text, trim, codes, String, arith, map,
  is_space, is_digit, ◌===◌, all,
}
use taksees.Errors.{ok}
use taksees.Phone.{
  Phone, e164, is_format, strip, international, with_country, normalise, parse, parse_default,
  equals,
}
use taksees.Phone.Regex.{IsE164, plus}
use taksees.Phone.Laws.{
  value_of, parse-IsE164, parse_of_IsE164, parse_default-insert, parse_prefixes,
}

try : String → Option Text
unfolding parse_default parse normalise strip is_format is_space international with_country e164
    is_digit trim
try s = value_of (parse_default (codes s))

spec_accepts :
    map try (
      "+201234567890" ∷ "01234567890" ∷ "00201234567890" ∷ "  +20 123 456 7890  "
      ∷ "+1-555-123-4567" ∷ [])
    ≡ some (codes "+201234567890")
      ∷ some (codes "+201234567890")
      ∷ some (codes "+201234567890")
      ∷ some (codes "+201234567890")
      ∷ some (codes "+15551234567")
      ∷ []
unfolding try
spec_accepts = refl

spec_rejects :
    map try ("" ∷ "   " ∷ "abc" ∷ "+" ∷ "+0123456" ∷ "+20123" ∷ "+2012345678901234567" ∷ [])
    ≡ none ∷ none ∷ none ∷ none ∷ none ∷ none ∷ none ∷ []
unfolding try
spec_rejects = refl

abbrev number : Phone
number = record { value = codes "+201234567890" }

number-IsE164 : IsE164 (codes "+201234567890")
number-IsE164 =
    plus b'2' (codes "01234567890") (omega arith) (omega arith) (omega arith) (omega arith)
      (omega arith)

spec_equality : (equals number (some number) ≡ true) × (equals number none ≡ false)
unfolding equals ◌===◌
spec_equality = (refl, refl)

parse_test : parse_default (codes "01234 567890") ≡ ok number
unfolding try
parse_test = refl

parse-IsE164_example : IsE164 (codes "+201234567890")
unfolding parse_default
parse-IsE164_example = parse-IsE164 (codes "01234 567890") (codes "+20") number parse_test

parse_of_IsE164_example : parse (codes "+201234567890") (codes "+33") ≡ ok number
parse_of_IsE164_example = parse_of_IsE164 (codes "+201234567890") (codes "+33") number-IsE164

dash-IsFormat : is_format b'-' ≡ true
unfolding is_format is_space
dash-IsFormat = refl

parse_default-insert_example :
    (parse_default (codes "01234567890") ≡ ok number)
    ↔ (parse_default (codes "012-34567890") ≡ ok number)
parse_default-insert_example =
    parse_default-insert (codes "012") (codes "34567890") b'-' number dash-IsFormat

digits_test : all is_digit (codes "234567890") ≡ true
unfolding is_digit
digits_test = refl

country_test : all is_digit (codes "20") ≡ true
unfolding is_digit
country_test = refl

parse_prefixes_example :
    (value_of (parse (codes "001234567890") (codes "+20"))
      ≡ value_of (parse (codes "+1234567890") (codes "+20")))
    × (value_of (parse (codes "01234567890") (codes "+20"))
        ≡ value_of (parse (codes "1234567890") (codes "+20")))
    × (value_of (parse (codes "1234567890") (codes "+20"))
        ≡ value_of (parse (codes "+201234567890") (codes "+20")))
parse_prefixes_example =
    parse_prefixes (codes "20") (codes "234567890") b'1' (omega arith) (omega arith) digits_test
      country_test
