-- ===== src/SuperAdmin.antt =====
-- scripts/create-super-admin.ts: its arguments and its writes. What it prints is left out, the
-- client of the database is a parameter, and a new id is an argument.
pub mod Laws
mod Tests
use taksees.Prelude.{
  ℕ, Bool, true, false, not, ◌&&◌, List, [], ◌∷◌, ◌++◌, Option, none, some, Text, codes, drop,
  starts_with, is_empty, ◌===◌, if◌then◌else◌,
}
use taksees.Errors.{ok, throws, error}
use taksees.Effects.{Action, then_do, ◌>>=◌, ◌>>◌, pure, raise}

-- A value of `args`: `true`, or a text.
pub data Arg : Type 0 where
  flag : Arg
  given : Text → Arg

-- `args`, the entries newest first
abbrev pub Args : Type 0
Args = List (Text × Arg)

-- `args[key]`
abbrev pub get : Text → Args → Option Arg
get key [] = none
get key ((k, v) ∷ args) = if k === key then some v else get key args

-- `next && !next.startsWith('--')`
abbrev is_value : Text → Bool
is_value next = not (is_empty next) && not (starts_with next (codes "--"))

-- What an argument is, by the branches of the loop.
pub data Kind : Type 0 where
  promotes : Kind
  dry_runs : Kind
  names : (key : Text) → Kind
  ignored : Kind

unfoldable pub kind_of : Text → Kind
kind_of arg =
    if arg === codes "--promote"
    then promotes
    else if arg === codes "--dry-run"
    then dry_runs
    else if starts_with arg (codes "--")
    then names (drop 2 arg)
    else ignored

-- The loop of `parseArgs`, from an argument on.
unfoldable pub parse_loop : List Text → Args → Args
parse_loop [] args = args
parse_loop (arg ∷ []) args = elim (kind_of arg) [
  | promotes ↦ (codes "promote", flag) ∷ args
  | dry_runs ↦ (codes "dryRun", flag) ∷ args
  | names key ↦ (key, flag) ∷ args
  | ignored ↦ args
]
parse_loop (arg ∷ next ∷ rest) args = elim (kind_of arg) [
  | promotes ↦ parse_loop (next ∷ rest) ((codes "promote", flag) ∷ args)
  | dry_runs ↦ parse_loop (next ∷ rest) ((codes "dryRun", flag) ∷ args)
  | names key ↦ elim (is_value next) [
    | true ↦ parse_loop rest ((key, given next) ∷ args)
    | false ↦ parse_loop (next ∷ rest) ((key, flag) ∷ args)
  ]
  | ignored ↦ parse_loop (next ∷ rest) args
]

pub record Options : Type 0 where
  pub email : Option Arg
  pub name : Option Arg
  pub google_id : Option Arg
  pub promote : Bool
  pub dry_run : Bool

-- `a ?? b`
abbrev pub or_else : Option Arg → Option Arg → Option Arg
or_else none b = b
or_else (some a) b = some a

-- `Boolean(v)`, and `!!v`: the empty text is false
abbrev pub truthy : Option Arg → Bool
truthy none = false
truthy (some flag) = true
truthy (some (given s)) = not (is_empty s)

-- The object that `parseArgs` returns.
abbrev pub options_of : Args → Options
options_of args = record {
  email = get (codes "email") args;
  name = get (codes "name") args;
  google_id = or_else (get (codes "google-id") args) (get (codes "email") args);
  promote = truthy (get (codes "promote") args);
  dry_run = truthy (get (codes "dry-run") args);
}

-- `parseArgs(argv)`, which skips the interpreter and the script
unfoldable pub parse_args : List Text → Options
parse_args argv = options_of (parse_loop (drop 2 argv) [])

-- `prisma.user`: the calls of the script. A lookup gives the role that is stored; the writes name
-- what they store beside the time and the verified email.
pub record UserTable (S : Type 0) : Type 0 where
  pub find_role : (email : Option Arg) → Action S (Option Text)
  pub update_role : (email : Option Arg) → (role : Text) → Action S (Unit {0})
  pub create : (id : Text) → (email name : Option Arg) → (role : Text) → Action S (Unit {0})

abbrev pub usage : Text
usage =
    codes
      "Usage: create-super-admin.ts --email <email> --name \"<display name>\" [--google-id <google email>] [--promote] [--dry-run]"

-- `${v}` of an argument
abbrev pub shown : Option Arg → Text
shown none = codes "undefined"
shown (some flag) = codes "true"
shown (some (given s)) = s

abbrev pub exists_message : Option Arg → Text → Text
exists_message email role =
    codes "User "
    ++ (shown email
        ++ (codes " already exists with role='"
            ++ (role ++ codes "'. Re-run with --promote to bump them to super_admin.")))

module _ {S : Type 0} (users : UserTable S) where
  -- The branches of `main` after the lookup.
  unfoldable pub write_user : Options → Text → Option Text → Action S (Unit {0})
  write_user args id (some role) =
      if not args.promote
      then raise (error (exists_message args.email role))
      else if args.dry_run
      then pure tt
      else users.update_role args.email (codes "super_admin")
  write_user args id none =
      if args.dry_run then pure tt else users.create id args.email args.name (codes "super_admin")

  -- `main`, on the options that were parsed
  unfoldable pub run : Options → Text → Action S (Unit {0})
  run args id =
      if truthy args.email && truthy args.name
      then users.find_role args.email >>= write_user args id
      else raise (error usage)

  unfoldable pub main : List Text → Text → Action S (Unit {0})
  main argv id = run (parse_args argv) id
