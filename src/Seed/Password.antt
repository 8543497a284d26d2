-- ===== src/Seed/Password.antt =====
-- prisma/seed.ts: the password format of the super admin. Bytes are numbers below 256; the random
-- bytes are an argument and `scryptSync` of Node is a parameter.
pub mod Laws
use taksees.Prelude.{
  ℕ, ◌+◌, ◌-◌, ◌*◌, ◌/◌, ◌%◌, Bool, true, false, not, ◌&&◌, ◌||◌, List, [], ◌∷◌, ◌++◌, Option, none,
  some, Text, codes, leb, ltb, ◌==◌, ◌===◌, if◌then◌else◌, is_empty, length, split_on,
}

abbrev pub Bytes : Type 0
Bytes = List ℕ

-- A digit of `toString('hex')`.
unfoldable pub hex_digit : ℕ → ℕ
hex_digit d = if ltb d 10 then b'0' + d else b'a' + (d - 10)

-- `bytes.toString('hex')`
unfoldable pub to_hex : Bytes → Text
to_hex [] = []
to_hex (b ∷ bytes) = hex_digit (b / 16) ∷ hex_digit (b % 16) ∷ to_hex bytes

unfoldable pub hex_value : ℕ → Option ℕ
hex_value c =
    if leb b'0' c && leb c b'9'
    then some (c - b'0')
    else if leb b'a' c && leb c b'f'
    then some (c - b'a' + 10)
    else if leb b'A' c && leb c b'F'
    then some (c - b'A' + 10)
    else none

abbrev pub cons_byte : Option ℕ → Option ℕ → Bytes → Bytes
cons_byte (some high) (some low) bytes = (high * 16 + low) ∷ bytes
cons_byte (some high) none bytes = []
cons_byte none low bytes = []

-- `Buffer.from(text, 'hex')`, which ends at the first pair that is not hexadecimal
unfoldable pub from_hex : Text → Bytes
from_hex [] = []
from_hex (c ∷ []) = []
from_hex (c ∷ d ∷ text) = cons_byte (hex_value c) (hex_value d) (from_hex text)

module _ (scrypt : (password salt : Text) → (size : ℕ) → Bytes) where
  -- `hashPassword(password)`, where `randomBytes(16)` gave `random`
  unfoldable pub hash_password : Bytes → Text → Text
  hash_password random password =
      to_hex random ++ b':' ∷ to_hex (scrypt password (to_hex random) 64)

  -- The comparison of the derived bytes; `timingSafeEqual` on bytes of one length is equality.
  unfoldable pub compare_derived : Text → Text → Bytes → Bool
  compare_derived password salt expected =
      let derived = scrypt password salt (length expected) in
      length expected == length derived && expected === derived

  -- What `verifyPassword` does with the parts of the stored text.
  unfoldable pub verify_parts : Text → List Text → Bool
  verify_parts password [] = false
  verify_parts password (salt ∷ []) = false
  verify_parts password (salt ∷ hash_hex ∷ more) =
      if is_empty salt || is_empty hash_hex
      then false
      else compare_derived password salt (from_hex hash_hex)

  -- `verifyPassword(password, stored)`
  unfoldable pub verify_password : Text → Text → Bool
  verify_password password stored = verify_parts password (split_on b':' stored)
