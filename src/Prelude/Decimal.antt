-- ===== src/Prelude/Decimal.antt =====
-- `n.toString()` on natural numbers, and what reads it back.
use Prim.Native.Nat.{ℕ, zero, suc, ◌+◌, ◌-◌, ◌*◌, ◌/◌, ◌%◌, ◌≤◌, ◌<◌}
use mathlib.Core.Path.{◌≡◌, refl}
use mathlib.Core.Bool.{true, false}
use mathlib.Core.List.{[], ◌∷◌}
use native.Mathlib.Omega.{arith}
use taksees.Prelude.Tests.{ltb}
use taksees.Prelude.Lists.{length, all}
use taksees.Prelude.Strings.{Text, is_digit}

-- The digits of `n` in front of `out`; each round takes the last one, and `n + 1` rounds are
-- enough.
unfoldable pub digits : ℕ → ℕ → Text → Text
digits zero n out = out
digits (suc fuel) n out = elim (ltb n 10) [
  | true ↦ (b'0' + n) ∷ out
  | false ↦ digits fuel (n / 10) ((b'0' + n % 10) ∷ out)
]

unfoldable pub to_string : ℕ → Text
to_string n = digits (suc n) n []

-- `s.padStart(width, '0')`, where `missing` is what `s` lacks of the width
abbrev pub zeros : ℕ → Text → Text
zeros zero s = s
zeros (suc missing) s = b'0' ∷ zeros missing s

unfoldable pub pad_start : ℕ → Text → Text
pad_start width s = zeros (width - length s) s

-- The number that digits stand for, after `n`.
abbrev pub read : Text → ℕ → ℕ
read [] n = n
read (c ∷ s) n = read s (n * 10 + (c - b'0'))

read-digits : (fuel n : ℕ) (out : Text) → n < fuel → read (digits fuel n out) 0 ≡ read out n
unfolding digits
read-digits zero n out h = absurd (omega arith)
read-digits (suc fuel) n out h = grind (arith, read-digits fuel (n / 10) ((b'0' + n % 10) ∷ out))

-- Enough rounds are made: the decimal digits of a number read as the number.
pub read-to_string : (n : ℕ) → read (to_string n) 0 ≡ n
unfolding to_string
read-to_string n = read-digits (suc n) n [] (omega arith)

all-digits :
    (fuel n : ℕ) (out : Text) → all is_digit out ≡ true → all is_digit (digits fuel n out) ≡ true
unfolding digits is_digit
all-digits zero n out h = h
all-digits (suc fuel) n out h = ground (arith, all-digits fuel (n / 10) ((b'0' + n % 10) ∷ out))

pub all-to_string : (n : ℕ) → all is_digit (to_string n) ≡ true
unfolding to_string
all-to_string n = all-digits (suc n) n [] refl

digits_more :
    (fuel n : ℕ) (out : Text)
    → 10 ≤ n
    → digits (suc fuel) n out ≡ digits fuel (n / 10) ((b'0' + n % 10) ∷ out)
unfolding digits
digits_more fuel n out h = ground arith

digits_last : (fuel n : ℕ) (out : Text) → n < 10 → digits (suc fuel) n out ≡ (b'0' + n) ∷ out
unfolding digits
digits_last fuel n out h = ground arith

five_rounds :
    (fuel n : ℕ)
    → 10000 ≤ n
    → n < 100000
    → length (digits (suc (suc (suc (suc (suc fuel))))) n []) ≡ 5
five_rounds fuel n lo hi = rw (digits_more _ n _ (omega arith)) (
    rw (digits_more _ (n / 10) _ (omega arith)) (
      rw (digits_more _ (n / 10 / 10) _ (omega arith)) (
        rw (digits_more _ (n / 10 / 10 / 10) _ (omega arith))
          (rw (digits_last _ (n / 10 / 10 / 10 / 10) _ (omega arith)) refl))))

-- Numbers of five digits.
pub length-to_string : (n : ℕ) → 10000 ≤ n → n < 100000 → length (to_string n) ≡ 5
unfolding to_string
length-to_string n lo hi =
    let e : suc n ≡ suc (suc (suc (suc (suc (n - 4))))) = omega arith in
    rw e (five_rounds (n - 4) n lo hi)
