-- ===== src/Storage/Encode.antt =====
-- `encodeURIComponent`, which `put` applies to the key in the file's URL.
use taksees.Prelude.{
  ℕ, ◌<◌, ◌+◌, ◌-◌, ◌*◌, ◌/◌, ◌≡◌, refl, subst, ◌≤◌, Bool, true, ◌&&◌, ◌||◌, [], ◌∷◌, ◌++◌, Option,
  none, some, Text, codes, arith, leb, ltb, ◌==◌, if◌then◌else◌, All, All-append, Bool-cases, inl,
  inr,
}
use Prim.Native.Nat.{◌%◌}
use taksees.Errors.{Result, ok, throws, error, Exception, ◌>>=◌, result-injective}

-- `A-Z a-z 0-9 - _ . ! ~ * ' ( )`
unfoldable pub is_unreserved : ℕ → Bool
is_unreserved c =
    (leb b'A' c && leb c b'Z')
    || (leb b'a' c && leb c b'z')
    || (leb b'0' c && leb c b'9')
    || c == b'-'
    || c == b'_'
    || c == b'.'
    || c == b'!'
    || c == b'~'
    || c == b'*'
    || c == 39
    || c == b'('
    || c == b')'

unfoldable pub hex_digit : ℕ → ℕ
hex_digit n = if leb n 9 then n + 48 else n + 55

unfoldable pub percent : ℕ → Text
percent byte = b'%' ∷ hex_digit (byte / 16) ∷ hex_digit (byte % 16) ∷ []

-- The percent-encoded UTF-8 bytes of a code point.
unfoldable pub encode_point : ℕ → Text
encode_point c =
    if ltb c 0x80
    then percent c
    else if ltb c 0x800
    then percent (0xc0 + c / 64) ++ percent (0x80 + c % 64)
    else if ltb c 0x10000
    then percent (0xe0 + c / 4096) ++ (percent (0x80 + c / 64 % 64) ++ percent (0x80 + c % 64))
    else percent (0xf0 + c / 262144)
      ++ (percent (0x80 + c / 4096 % 64)
          ++ (percent (0x80 + c / 64 % 64) ++ percent (0x80 + c % 64)))

unfoldable pub encode_unit : ℕ → Text
encode_unit c = if is_unreserved c then c ∷ [] else encode_point c

abbrev is_high : ℕ → Bool
is_high c = leb 0xd800 c && leb c 0xdbff

abbrev is_low : ℕ → Bool
is_low c = leb 0xdc00 c && leb c 0xdfff

abbrev malformed : Exception
malformed = error (codes "URI malformed")

-- What is written in front of the encoding of the rest.
abbrev before : Text → Result Text → Result Text
before t rest = rest >>= λ r. ok (t ++ r)

-- The high surrogate that waits for its low one, if the last code unit was one.
unfoldable pub encode_from : Option ℕ → Text → Result Text
encode_from none [] = ok []
encode_from (some high) [] = throws malformed
encode_from none (c ∷ s) =
    let pair = encode_from (some c) s in
    let plain = before (encode_unit c) (encode_from none s) in
    if is_high c then pair else if is_low c then throws malformed else plain
encode_from (some high) (c ∷ s) =
    let pair =
      before (encode_point (0x10000 + (high - 0xd800) * 0x400 + (c - 0xdc00)))
        (encode_from none s) in
    if is_low c then pair else throws malformed

-- `encodeURIComponent(text)`
unfoldable pub encode_uri_component : Text → Result Text
encode_uri_component text = encode_from none text

-- What an encoded text is made of: unreserved characters and percent signs.
abbrev pub IsEncoded : ℕ → Type 0
IsEncoded c = ((is_unreserved c || c == b'%') ≡ true)

hex_digit-IsEncoded : (n : ℕ) → n < 16 → IsEncoded (hex_digit n)
unfolding hex_digit is_unreserved
hex_digit-IsEncoded n h = ground arith

percent-sign : IsEncoded b'%'
unfolding is_unreserved
percent-sign = refl

percent-IsEncoded : (b : ℕ) → b < 256 → All IsEncoded (percent b)
unfolding percent
percent-IsEncoded b h =
    (percent-sign, (hex_digit-IsEncoded _ (omega arith), (hex_digit-IsEncoded _ (omega arith), tt)))

encode_point-IsEncoded : (c : ℕ) → c < 0x110000 → All IsEncoded (encode_point c)
unfolding encode_point
encode_point-IsEncoded c h = elim (Bool-cases (ltb c 0x80)) [
  | inl one ↦ rw one (percent-IsEncoded c (ground arith))
  | inr more ↦ elim (Bool-cases (ltb c 0x800)) [
    | inl two ↦
        rw (more, two)
          (All-append IsEncoded (percent _) (percent _) (percent-IsEncoded _ (ground arith))
            (percent-IsEncoded _ (omega arith)))
    | inr three ↦ elim (Bool-cases (ltb c 0x10000)) [
      | inl basic ↦
          rw (more, three, basic)
            (All-append IsEncoded (percent _) (percent _ ++ percent _)
              (percent-IsEncoded _ (ground arith))
              (All-append IsEncoded (percent _) (percent _) (percent-IsEncoded _ (omega arith))
                (percent-IsEncoded _ (omega arith))))
      | inr astral ↦
          rw (more, three, astral)
            (All-append IsEncoded (percent _) (percent _ ++ (percent _ ++ percent _))
              (percent-IsEncoded _ (omega arith))
              (All-append IsEncoded (percent _) (percent _ ++ percent _)
                (percent-IsEncoded _ (omega arith))
                (All-append IsEncoded (percent _) (percent _) (percent-IsEncoded _ (omega arith))
                  (percent-IsEncoded _ (omega arith)))))
    ]
  ]
]

encode_unit-IsEncoded : (c : ℕ) → c < 0x10000 → All IsEncoded (encode_unit c)
unfolding encode_unit
encode_unit-IsEncoded c h = elim (Bool-cases (is_unreserved c)) [
  | inl plain ↦ rw (plain, plain) (refl, tt)
  | inr other ↦ rw other (encode_point-IsEncoded c (omega arith))
]

-- Code units are below 2¹⁶; a high surrogate is held back only if it is one.
abbrev pub IsUnits : Text → Type 0
IsUnits = All (λ c. c < 0x10000)

abbrev IsPending : Option ℕ → Type 0
IsPending none = Unit
IsPending (some high) = high ≤ 0xdbff

before-IsEncoded :
    (t : Text) (rest : Result Text) (u : Text)
    → All IsEncoded t
    → ((v : Text) → rest ≡ ok v → All IsEncoded v)
    → before t rest ≡ ok u
    → All IsEncoded u
before-IsEncoded t (ok v) u h k e =
    subst (All IsEncoded) (result-injective e) (All-append IsEncoded t v h (k v refl))
before-IsEncoded t (throws x) u h k e = cc

encode_from-IsEncoded :
    (pending : Option ℕ) (s t : Text)
    → IsPending pending
    → IsUnits s
    → encode_from pending s ≡ ok t
    → All IsEncoded t
unfolding encode_from
encode_from-IsEncoded none [] t p h e = subst (All IsEncoded) (result-injective e) tt
encode_from-IsEncoded (some high) [] t p h e = cc
encode_from-IsEncoded none (c ∷ s) t p (b, h) e = elim (Bool-cases (is_high c)) [
  | inl high ↦ encode_from-IsEncoded (some c) s t (ground arith) h (rw high at e)
  | inr other ↦ elim (Bool-cases (is_low c)) [
    | inl low ↦ cc (rw (other, low) at e)
    | inr plain ↦
        before-IsEncoded (encode_unit c) (encode_from none s) t (encode_unit-IsEncoded c b)
          (λ v k. encode_from-IsEncoded none s v tt h k) (rw (other, plain) at e)
  ]
]
encode_from-IsEncoded (some high) (c ∷ s) t p (b, h) e = elim (Bool-cases (is_low c)) [
  | inl low ↦
      before-IsEncoded (encode_point _) (encode_from none s) t
        (encode_point-IsEncoded _ (ground arith)) (λ v k. encode_from-IsEncoded none s v tt h k)
        (rw low at e)
  | inr other ↦ cc (rw other at e)
]

-- An encoded text holds unreserved characters and percent signs only, so that it is one segment of
-- a URL's path: it has no slash, question mark or number sign.
pub encode_uri_component-IsEncoded :
    (text encoded : Text)
    → IsUnits text
    → encode_uri_component text ≡ ok encoded
    → All IsEncoded encoded
unfolding encode_uri_component
encode_uri_component-IsEncoded text encoded h e = encode_from-IsEncoded none text encoded tt h e
