-- ===== src/Phone/Regex.antt =====
-- The E.164 shape described without the regular expression of phone.vo.ts.
use taksees.Prelude.{
  ℕ, ◌+◌, ◌≤◌, ◌≡◌, refl, ◌↔◌, true, false, not, [], ◌∷◌, Text, arith, length, all, All, all→All,
  is_digit, is_space, keep_of_all,
}
use taksees.Phone.{e164, is_format, strip}

abbrev pub IsDigit : ℕ → Type 0
IsDigit c = (b'0' ≤ c) × (c ≤ b'9')

-- A plus sign, a digit other than 0, and digits; 7 to 15 digits in all.
pub data IsE164 : Text → Type 0 where
  plus :
      (d : ℕ) (rest : Text)
      → b'1' ≤ d
      → d ≤ b'9'
      → All IsDigit rest
      → 7 ≤ length rest + 1
      → length rest + 1 ≤ 15
      → IsE164 (b'+' ∷ d ∷ rest)

is_digit_sound : (c : ℕ) → is_digit c ≡ true → IsDigit c
unfolding is_digit
is_digit_sound c h = ground arith

pub all-is_digit : (s : Text) → All IsDigit s → all is_digit s ≡ true
unfolding is_digit
all-is_digit [] h = refl
all-is_digit (c ∷ s) h = ground (arith, all-is_digit s)

e164-IsE164 : (t : Text) → e164 t ≡ true → IsE164 t
unfolding e164
e164-IsE164 [] h = cc
e164-IsE164 (c ∷ []) h = cc
e164-IsE164 (c ∷ d ∷ rest) h =
    let e : c ≡ b'+' = ground arith in
    rw e (
      plus d rest (ground arith) (ground arith)
        (all→All IsDigit is_digit rest is_digit_sound (ground arith)) (ground arith) (ground arith))

IsE164-e164 : (t : Text) → IsE164 t → e164 t ≡ true
unfolding e164
IsE164-e164 _ (plus d rest lo hi digits short long) = ground (arith, all-is_digit rest digits)

pub e164_iff : (t : Text) → (e164 t ≡ true) ↔ IsE164 t
e164_iff t = (e164-IsE164 t, IsE164-e164 t)

digit-not_format : (c : ℕ) → is_digit c ≡ true → not (is_format c) ≡ true
unfolding is_format is_digit is_space
digit-not_format c h = ground arith

all-not_format : (s : Text) → all is_digit s ≡ true → all (λ c. not (is_format c)) s ≡ true
all-not_format [] h = refl
all-not_format (c ∷ s) h = ground (arith, digit-not_format c, all-not_format s)

pub strip_digits : (s : Text) → all is_digit s ≡ true → strip s ≡ s
unfolding strip
strip_digits s h = keep_of_all (λ c. not (is_format c)) s (all-not_format s h)

plus-not_format : is_format b'+' ≡ false
unfolding is_format is_space
plus-not_format = refl

pub strip_plus : (s : Text) → all is_digit s ≡ true → strip (b'+' ∷ s) ≡ b'+' ∷ s
unfolding strip
strip_plus s h =
    rw plus-not_format (rw (keep_of_all (λ c. not (is_format c)) s (all-not_format s h)) refl)
