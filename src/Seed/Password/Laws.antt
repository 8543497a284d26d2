-- ===== src/Seed/Password/Laws.antt =====
-- A stored password verifies.
use taksees.Prelude.{
  ℕ, ◌/◌, ◌%◌, ◌<◌, ◌≡◌, ◌↔◌, refl, ap₂, Bool, true, false, [], ◌∷◌, some, Text, arith, ltb, ◌==◌,
  ◌===◌, ===_iff, is_empty, length, all, includes_unit, split_on-append, split_on_plain,
}
use taksees.Seed.Password.{
  Bytes, hex_digit, to_hex, hex_value, from_hex, hash_password, verify_password, verify_parts,
  compare_derived,
}

abbrev pub is_byte : ℕ → Bool
is_byte b = ltb b 256

hex_value-hex_digit : (d : ℕ) → d < 16 → hex_value (hex_digit d) ≡ some d
unfolding hex_value hex_digit
hex_value-hex_digit d h = grind arith

hex_digit-not_colon : (d : ℕ) → d < 16 → (hex_digit d == b':') ≡ false
unfolding hex_digit
hex_digit-not_colon d h = ground arith

-- Bytes survive their hexadecimal form.
pub from_hex-to_hex : (bytes : Bytes) → all is_byte bytes ≡ true → from_hex (to_hex bytes) ≡ bytes
unfolding from_hex to_hex
from_hex-to_hex [] h = refl
from_hex-to_hex (b ∷ bytes) h =
    rw (hex_value-hex_digit (b / 16) (ground arith), hex_value-hex_digit (b % 16) (omega arith))
      (ap₂ ◌∷◌ (omega arith) (from_hex-to_hex bytes (ground arith)))

to_hex-not_colon :
    (bytes : Bytes) → all is_byte bytes ≡ true → includes_unit (to_hex bytes) b':' ≡ false
unfolding to_hex
to_hex-not_colon [] h = refl
to_hex-not_colon (b ∷ bytes) h =
    rw (hex_digit-not_colon (b / 16) (ground arith), hex_digit-not_colon (b % 16) (omega arith))
      (to_hex-not_colon bytes (ground arith))

is_empty-to_hex : (bytes : Bytes) → 0 < length bytes → is_empty (to_hex bytes) ≡ false
unfolding to_hex
is_empty-to_hex [] h = absurd (omega arith)
is_empty-to_hex (b ∷ bytes) h = refl

-- `scryptSync` gives as many bytes as it is asked for.
pub record IsScrypt (scrypt : (password salt : Text) → (size : ℕ) → Bytes) : Type 0 where
  pub sized : (password salt : Text) (size : ℕ) → length (scrypt password salt size) ≡ size
  pub bytes : (password salt : Text) (size : ℕ) → all is_byte (scrypt password salt size) ≡ true

module _ (scrypt : (password salt : Text) → (size : ℕ) → Bytes) (lawful : IsScrypt scrypt)
    (random : Bytes) (sixteen : length random ≡ 16) (are_bytes : all is_byte random ≡ true)
    (p q : Text) where
  verify-hash_by :
      verify_password scrypt q (hash_password scrypt random p)
      ≡ (scrypt p (to_hex random) 64 === scrypt q (to_hex random) 64)
  unfolding verify_password hash_password verify_parts compare_derived
  verify-hash_by =
      rw
        (
          split_on-append b':' (to_hex random) (to_hex (scrypt p (to_hex random) 64))
              (to_hex-not_colon random are_bytes),
          split_on_plain b':' (to_hex (scrypt p (to_hex random) 64))
              (to_hex-not_colon _ (lawful.bytes p (to_hex random) 64)),
          is_empty-to_hex random (omega arith),
          is_empty-to_hex (scrypt p (to_hex random) 64)
              (omega (arith, lawful.sized p (to_hex random) 64)),
          from_hex-to_hex (scrypt p (to_hex random) 64) (lawful.bytes p (to_hex random) 64),
          lawful.sized p (to_hex random) 64,
          lawful.sized q (to_hex random) 64,
        )
        refl

  -- If `scryptSync` gives as many bytes as it is asked for, and the salt is 16 bytes, then what
  -- `hashPassword` stores for a password verifies for another exactly when `scryptSync` derives
  -- the same bytes from both with that salt; so a password verifies against its own hash.
  pub verify-hash_iff :
      (verify_password scrypt q (hash_password scrypt random p) ≡ true)
      ↔ (scrypt p (to_hex random) 64 ≡ scrypt q (to_hex random) 64)
  verify-hash_iff =
      rw verify-hash_by (===_iff (scrypt p (to_hex random) 64) (scrypt q (to_hex random) 64))
