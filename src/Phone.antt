-- ===== src/Phone.antt =====
-- modules/classes/domain/value-objects/phone.vo.ts: normalising a phone number to E.164.
pub mod Regex
pub mod Laws
mod Tests
use taksees.Prelude.{
  ℕ, Bool, true, false, not, ◌&&◌, ◌||◌, List, [], ◌∷◌, ◌++◌, Option, none, some, Text, codes, leb,
  ◌==◌, ◌===◌, if◌then◌else◌, is_empty, starts_with, length, all, keep, drop, drop_while, trim,
  is_space, is_digit,
}
use taksees.Errors.{Result, ok, throws, domain, invalid_phone}

pub record Phone : Type 0 where
  pub value : Text

-- The class `[\s\-().]` that is stripped.
unfoldable pub is_format : ℕ → Bool
is_format c = is_space c || c == b'-' || c == b'(' || c == b')' || c == b'.'

-- `input.replace(/[\s\-().]/g, '')`
unfoldable pub strip : Text → Text
strip input = keep (λ c. not (is_format c)) input

-- `digits.replace(/^0+/, '')`
abbrev pub strip_zeros : Text → Text
strip_zeros = drop_while (λ c. c == b'0')

-- A leading `00` becomes `+`.
unfoldable pub international : Text → Text
international digits =
    if starts_with digits (codes "00") then codes "+" ++ drop 2 digits else digits

-- A number without `+` is local: the country code goes in front, the trunk zeros go.
unfoldable pub with_country : Text → Text → Text
with_country country digits =
    if starts_with digits (codes "+") then digits else country ++ strip_zeros digits

-- `/^\+[1-9]\d{6,14}$/`
unfoldable pub e164 : Text → Bool
e164 [] = false
e164 (c ∷ []) = false
e164 (c ∷ d ∷ rest) =
    c == b'+'
    && (leb b'1' d && leb d b'9')
    && all is_digit rest
    && (leb 6 (length rest) && leb (length rest) 14)

-- The three rewriting steps of `parse`.
unfoldable pub normalise : Text → Text → Text
normalise country input = with_country country (international (strip input))

unfoldable pub parse : Text → Text → Result Phone
parse input country =
    if is_empty (trim input)
    then throws (domain (invalid_phone input))
    else if e164 (normalise country input)
    then ok (record { value = normalise country input })
    else throws (domain (invalid_phone input))

-- `parse(input)`, whose default country code is Egypt's
unfoldable pub parse_default : Text → Result Phone
parse_default input = parse input (codes "+20")

-- `equals(other)`
unfoldable pub equals : Phone → Option Phone → Bool
equals p none = false
equals p (some q) = p.value === q.value
