-- ===== src/Seed/Causes.antt =====
-- Why the script fails: what an exception that it ends with comes from.
use taksees.Prelude.{◌≡◌, List, Text, codes}
use taksees.Errors.{throws, Exception, error}
use taksees.Effects.{Action}
use taksees.Effects.Ends.{Ends, Anything}
use taksees.Seed.Calls.{Table, NewUser, NewAccount, NewClass, Assignment, Client}
use taksees.Seed.Members.{MemberRow}

-- What main may end with: an exception of a call, in the state that the call leaves, or the error of
-- the last check.
pub data Cause {S : Type 0} (client : Client S) (x : Exception) (t : S) : Type 0 where
  deletes : (table : Table) (s : S) → client.delete_all table s ≡ (throws x, t) → Cause client x t
  signs_up :
      (email password name : Text) (s : S)
      → client.sign_up_email email password name s ≡ (throws x, t)
      → Cause client x t
  updates :
      (email role : Text) (s : S)
      → client.update_role email role s ≡ (throws x, t)
      → Cause client x t
  finds_user : (email : Text) (s : S) → client.find_user email s ≡ (throws x, t) → Cause client x t
  creates_user : (u : NewUser) (s : S) → client.create_user u s ≡ (throws x, t) → Cause client x t
  creates_account :
      (a : NewAccount) (s : S) → client.create_account a s ≡ (throws x, t) → Cause client x t
  creates_class :
      (c : NewClass) (s : S) → client.create_class c s ≡ (throws x, t) → Cause client x t
  assigns :
      (rows : List Assignment) (s : S)
      → client.create_assignments rows s ≡ (throws x, t)
      → Cause client x t
  adds :
      (rows : List MemberRow) (s : S)
      → client.create_members rows s ≡ (throws x, t)
      → Cause client x t
  finds_password :
      (id provider : Text) (s : S)
      → client.find_password id provider s ≡ (throws x, t)
      → Cause client x t
  unverified :
      x ≡ error (codes "Internal: seeded SUPER_ADMIN password does not verify") → Cause client x t

module _ {S : Type 0} (client : Client S) where
  abbrev Caused : {A : Type 0} → Action S A → Type 0
  Caused call = Ends Anything (Cause client) call
