-- ===== src/Seed/Tests.antt =====
-- Runs of the seed script over a database that counts the rows of each table.
use taksees.Prelude.{
  ℕ, zero, suc, ◌+◌, ◌%◌, ◌≡◌, ◌↔◌, refl, sym, ap, ◌∙◌, Bool, true, false, not, List, [], ◌∷◌, none,
  Text, codes, arith, ◌==◌, ==_self, if◌then◌else◌, length, all, Bool-cases, inl, inr, All,
  split_on, ◌===◌, to_string, digits, pad_start,
}
use taksees.Errors.{ok, throws, Exception, error, message, domain, http, prisma_known}
use taksees.Effects.{Action}
use taksees.Roles.{super_admin}
use taksees.Seed.Calls.{
  Table, servant_classes, members, classes, sessions, accounts, verifications, users, SeedUser,
  Client, Env, Drawn, Outside,
}
use taksees.Seed.Password.{
  Bytes, to_hex, from_hex, hex_digit, hex_value, hash_password, verify_password, verify_parts,
  compare_derived,
}
use taksees.Seed.Password.Laws.{is_byte, IsScrypt, verify-hash_iff}
use taksees.Seed.Members.{Share, batches, make_phone, row_at}
use taksees.Seed.Members.Laws.{all_rows, DistinctPhones, HasPhone, seeded_phones}
use taksees.Seed.Laws.{
  IsDatabase, Restricts, member_class, class_leader, wipe_clears, main_forgets,
  main_without_sign_up,
}
use taksees.Seed.{is_closed, wipe, create_super_admin_directly, create_unless, main}

-- A derivation that only cuts the password, or fills it up.
abbrev fit : ℕ → Text → Bytes
fit zero s = []
fit (suc n) [] = 0 ∷ fit n []
fit (suc n) (c ∷ s) = c % 256 ∷ fit n s

length-fit : (n : ℕ) (s : Text) → length (fit n s) ≡ n
length-fit zero s = refl
length-fit (suc n) [] = ap suc (length-fit n [])
length-fit (suc n) (c ∷ s) = ap suc (length-fit n s)

all-fit : (n : ℕ) (s : Text) → all is_byte (fit n s) ≡ true
all-fit zero s = refl
all-fit (suc n) [] = ground (arith, all-fit n [])
all-fit (suc n) (c ∷ s) = ground (arith, all-fit n s)

abbrev scrypt : Text → Text → ℕ → Bytes
scrypt password salt size = fit size password

fit-IsScrypt : IsScrypt scrypt
fit-IsScrypt = record { sized = λ p s n. length-fit n p; bytes = λ p s n. all-fit n p }

abbrev salt : Bytes
salt = 1 ∷ 35 ∷ 69 ∷ 103 ∷ 137 ∷ 171 ∷ 205 ∷ 239 ∷ 0 ∷ 17 ∷ 34 ∷ 51 ∷ 68 ∷ 85 ∷ 102 ∷ 255 ∷ []

verify-hash_iff_example :
    (verify_password scrypt (codes "Passw0rd!") (hash_password scrypt salt (codes "Passw0rd!"))
      ≡ true)
    ↔ (scrypt (codes "Passw0rd!") (to_hex salt) 64 ≡ scrypt (codes "Passw0rd!") (to_hex salt) 64)
verify-hash_iff_example =
    verify-hash_iff scrypt fit-IsScrypt salt refl refl (codes "Passw0rd!") (codes "Passw0rd!")

wrong_password_test :
    verify_password scrypt (codes "password") (hash_password scrypt salt (codes "Passw0rd!"))
    ≡ false
unfolding verify_password hash_password verify_parts compare_derived split_on to_hex from_hex
    hex_digit hex_value ◌===◌
wrong_password_test = refl

abbrev shares : List Share
shares =
    record { class_id = codes "a"; count = 2 } ∷ record { class_id = codes "b"; count = 1 } ∷ []

first_row_test :
    row_at (codes "a") 0
    ≡ record { class_id = codes "a"; full_name = codes "Mariam 0"; phone = codes "+201234567891" }
unfolding row_at make_phone to_string digits pad_start
first_row_test = refl

seeded_phones_example :
    let rows = all_rows (batches 0 shares) in
    (length rows ≡ 3) × DistinctPhones rows × All HasPhone rows
seeded_phones_example = seeded_phones shares (omega arith)

-- The number of rows in each table.
abbrev Counts : Type 0
Counts = Table → ℕ

abbrev tag : Table → ℕ
tag servant_classes = 0
tag members = 1
tag classes = 2
tag sessions = 3
tag accounts = 4
tag verifications = 5
tag users = 6

abbrev set_count : Table → ℕ → Counts → Counts
set_count t n s u = if tag u == tag t then n else s u

abbrev is_blocked : Table → Counts → Bool
is_blocked classes s = not (s members == 0)
is_blocked users s = not (s classes == 0)
is_blocked t s = false

abbrev delete_all : Table → Action Counts (Unit {0})
delete_all t s =
    if is_blocked t s then (throws (prisma_known (codes "P2003")), s) else (ok tt, set_count t 0 s)

abbrev add : {A : Type 0} → Table → A → Action Counts A
add t a s = (ok a, set_count t (s t + 1) s)

abbrev client : Client Counts
client = record {
  delete_all = delete_all;
  sign_up_email = λ email password name. add users (record { id = email; email = email });
  update_role = λ email role s. (ok (record { id = email; email = email }), s);
  find_user = λ email s. (ok none, s);
  create_user = λ user. add users (record { id = user.id; email = user.email });
  create_account = λ account. add accounts tt;
  create_class = λ c. add classes c.leader_id;
  create_assignments = λ rows s. (ok tt, set_count servant_classes (length rows) s);
  create_members = λ rows s. (ok tt, set_count members (s members + length rows) s);
  find_password = λ id provider s. (ok none, s);
}

abbrev IsClear : Table → Counts → Type 0
IsClear t s = s t ≡ 0

unblocked :
    (t : Table) (s : Counts) → ((u : Table) → Restricts u t → IsClear u s) → is_blocked t s ≡ false
unblocked classes s h = ground (arith, h members member_class)
unblocked users s h = ground (arith, h classes class_leader)
unblocked servant_classes s h = refl
unblocked members s h = refl
unblocked sessions s h = refl
unblocked accounts s h = refl
unblocked verifications s h = refl

set_count-keeps : (t u : Table) (s : Counts) → IsClear u s → IsClear u (set_count t 0 s)
set_count-keeps t u s h = elim (Bool-cases (tag u == tag t)) [
  | inl same ↦ rw same refl
  | inr other ↦ rw other h
]

counts-IsDatabase : IsDatabase client IsClear
counts-IsDatabase = record {
  clears = λ t s free. (
    set_count t 0 s,
    rw (unblocked t s free) refl,
    rw (==_self (tag t)) refl,
    λ u. set_count-keeps t u s,
  );
  one_empty = λ s t p q i u. (p u ∙ sym (q u)) i;
}

abbrev filled : Counts
filled t = 7

abbrev emptied : Counts
emptied t = 0

wipe_clears_example : (r : Counts) × (wipe client filled ≡ (ok tt, r)) × ((t : Table) → IsClear t r)
wipe_clears_example = wipe_clears client IsClear counts-IsDatabase filled

abbrev message_of : Exception → Text
message_of (domain e) = message e
message_of (http kind text) = text
message_of (prisma_known code) = code
message_of (error text) = text

abbrev outside : Outside
outside = record { scrypt = scrypt; message_of = message_of }

abbrev env : Env
env = record { password = none; email = none; name = none }

abbrev drawn : Drawn
drawn = record { salt = salt; user_id = codes "u1"; account_id = codes "a1" }

forgotten_test : main client outside env drawn filled ≡ main client outside env drawn emptied
forgotten_test = main_forgets client IsClear counts-IsDatabase outside env drawn filled emptied

abbrev disabled : Exception
disabled = error (codes "endpoint disabled")

abbrev closed : Client Counts
closed = record client { sign_up_email = λ email password name s. (throws disabled, s) }

abbrev wiped : Counts
wiped = (wipe closed filled).1

abbrev with_admin : Counts
with_admin = (create_super_admin_directly closed outside env drawn wiped).1

abbrev admin : SeedUser
admin = record { id = codes "u1"; email = codes "admin@taksees.app"; role = super_admin }

closed_sign_up_test : main closed outside env drawn filled ≡ (throws disabled, with_admin)
unfolding wipe create_super_admin_directly create_unless is_closed
closed_sign_up_test =
    main_without_sign_up closed outside env drawn disabled filled wiped with_admin admin refl
      (λ email password name r. refl) refl refl

-- The tables are empty then, but for the admin and the account.
left_over_test : (with_admin users ≡ 1) × (with_admin accounts ≡ 1) × (with_admin classes ≡ 0)
unfolding wipe create_super_admin_directly create_unless
left_over_test = (refl, refl, refl)
