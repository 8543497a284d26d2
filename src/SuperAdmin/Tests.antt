-- ===== src/SuperAdmin/Tests.antt =====
-- Runs of the script over one user.
use taksees.Prelude.{
  ◌≡◌, refl, true, false, List, [], ◌∷◌, Option, none, some, Text, codes, map, ◌===◌,
}
use taksees.Errors.{Result, ok, throws, error}
use taksees.SuperAdmin.{
  given, Options, kind_of, parse_loop, parse_args, UserTable, write_user, run, main,
}
use taksees.SuperAdmin.Laws.{dry_run_ignored, dry_run_writes_nothing}

-- The role of the user, if there is one.
abbrev Role : Type 0
Role = Option Text

abbrev update : Text → Role → Result (Unit {0}) × Role
update role none = (throws (error (codes "P2025")), none)
update role (some old) = (ok tt, some role)

abbrev users : UserTable Role
users = record {
  find_role = λ email s. (ok s, s);
  update_role = λ email role. update role;
  create = λ id email name role s. (ok tt, some role);
}

abbrev argv : List Text
argv =
    map codes
      ("node" ∷ "script" ∷ "--email" ∷ "a@b" ∷ "--promote" ∷ "--name" ∷ "A B" ∷ "--dry-run" ∷ [])

abbrev options : Options
options = record {
  email = some (given (codes "a@b"));
  name = some (given (codes "A B"));
  google_id = some (given (codes "a@b"));
  promote = true;
  dry_run = false;
}

parse_test : parse_args argv ≡ options
unfolding parse_args parse_loop kind_of ◌===◌
parse_test = refl

-- With `--dry-run` the user is created all the same.
dry_main_test : main users argv (codes "id1") none ≡ (ok tt, some (codes "super_admin"))
unfolding main run write_user parse_args parse_loop kind_of ◌===◌
dry_main_test = refl

dry_run_ignored_example : (parse_args argv).dry_run ≡ false
dry_run_ignored_example = dry_run_ignored argv

abbrev dry : Options
dry = record options { dry_run = true }

nothing_written_test : (run users dry (codes "id1") none).1 ≡ none
nothing_written_test =
    dry_run_writes_nothing users dry (codes "id1") none none none refl refl refl refl
