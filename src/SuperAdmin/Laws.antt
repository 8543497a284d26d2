-- ===== src/SuperAdmin/Laws.antt =====
-- When the script writes.
use taksees.Prelude.{
  ◌≡◌, refl, sym, ap, ap₂, ◌⊎◌, ==_iff, ◌∙◌, true, false, List, [], ◌∷◌, Option, none, some, Text,
  codes, arith, drop, starts_with, ◌===◌, ===_iff, Bool-cases, inl, inr,
}
use taksees.Errors.{ok}
use taksees.SuperAdmin.{
  Args, get, Kind, promotes, dry_runs, names, ignored, kind_of, is_value, parse_loop, Options,
  parse_args, truthy, UserTable, write_user, run,
}

dashed : (arg : Text) → starts_with arg (codes "--") ≡ true → arg ≡ b'-' ∷ b'-' ∷ drop 2 arg
dashed [] h = cc
dashed (c ∷ []) h = ground (arith, h)
dashed (c ∷ d ∷ arg) h =
    ap₂ (λ x y. x ∷ y ∷ arg) ((==_iff c b'-').0 (ground arith)) ((==_iff d b'-').0 (ground arith))

abbrev key_of : Kind → Text
key_of (names key) = key
key_of promotes = []
key_of dry_runs = []
key_of ignored = []

names-injective : {a b : Text} → names a ≡ names b → a ≡ b
names-injective e = ap key_of e

-- No branch that names a key names `dry-run`.
kind_of-names : (arg key : Text) → kind_of arg ≡ names key → (key === codes "dry-run") ≡ false
unfolding kind_of
kind_of-names arg key h = elim (Bool-cases (arg === codes "--promote")) [
  | inl p ↦ cc (rw p at h)
  | inr p ↦ elim (Bool-cases (arg === codes "--dry-run")) [
    | inl d ↦ cc (rw (p, d) at h)
    | inr d ↦ elim (Bool-cases (starts_with arg (codes "--"))) [
      | inr n ↦ cc (rw (p, d, n) at h)
      | inl n ↦ elim (Bool-cases (key === codes "dry-run")) [
        | inr other ↦ other
        | inl same ↦
            let is_drop : drop 2 arg ≡ key = names-injective (rw (p, d, n) at h) in
            let is_key : key ≡ codes "dry-run" = (===_iff key (codes "dry-run")).0 same in
            let is_arg : arg ≡ codes "--dry-run" =
              dashed arg n ∙ ap (λ k. b'-' ∷ b'-' ∷ k) (is_drop ∙ is_key) in
            cc (sym d ∙ (===_iff arg (codes "--dry-run")).1 is_arg)
      ]
    ]
  ]
]

Kind-cases :
    (k : Kind)
    → (k ≡ promotes) ⊎ ((k ≡ dry_runs) ⊎ ((k ≡ ignored) ⊎ ((key : Text) × (k ≡ names key))))
Kind-cases promotes = inl refl
Kind-cases dry_runs = inr (inl refl)
Kind-cases ignored = inr (inr (inl refl))
Kind-cases (names key) = inr (inr (inr (key, refl)))

promote_other : (codes "promote" === codes "dry-run") ≡ false
unfolding ◌===◌
promote_other = refl

dry_run_other : (codes "dryRun" === codes "dry-run") ≡ false
unfolding ◌===◌
dry_run_other = refl

parse_loop-dry_run :
    (argv : List Text) (args : Args)
    → get (codes "dry-run") args ≡ none
    → get (codes "dry-run") (parse_loop argv args) ≡ none
unfolding parse_loop
parse_loop-dry_run [] args h = h
parse_loop-dry_run (arg ∷ []) args h = elim (Kind-cases (kind_of arg)) [
  | inl e ↦ rw (parse_loop, e, promote_other) h
  | inr (inl e) ↦ rw (parse_loop, e, dry_run_other) h
  | inr (inr (inl e)) ↦ rw (parse_loop, e) h
  | inr (inr (inr (key, e))) ↦ rw (parse_loop, e, kind_of-names arg key e) h
]
parse_loop-dry_run (arg ∷ next ∷ rest) args h = elim (Kind-cases (kind_of arg)) [
  | inl e ↦ rw (parse_loop, e) (parse_loop-dry_run (next ∷ rest) _ (rw promote_other h))
  | inr (inl e) ↦ rw (parse_loop, e) (parse_loop-dry_run (next ∷ rest) _ (rw dry_run_other h))
  | inr (inr (inl e)) ↦ rw (parse_loop, e) (parse_loop-dry_run (next ∷ rest) args h)
  | inr (inr (inr (key, e))) ↦ elim (Bool-cases (is_value next)) [
    | inl v ↦ rw (parse_loop, e, v) (parse_loop-dry_run rest _ (rw (kind_of-names arg key e) h))
    | inr v ↦
        rw (parse_loop, e, v) (parse_loop-dry_run (next ∷ rest) _ (rw (kind_of-names arg key e) h))
  ]
]

-- Whatever the arguments are, `--dry-run` among them or not, the option `dryRun` that `parseArgs`
-- returns is false.
pub dry_run_ignored : (argv : List Text) → (parse_args argv).dry_run ≡ false
unfolding parse_args
dry_run_ignored argv = rw (parse_loop-dry_run (drop 2 argv) [] refl) refl

module _ {S : Type 0} (users : UserTable S) where
  written :
      (args : Options) (id : Text) (found : Option Text) (s : S)
      → args.dry_run ≡ true
      → (write_user users args id found s).1 ≡ s
  unfolding write_user
  written args id none s dry = rw dry refl
  written args id (some role) s dry = elim (Bool-cases args.promote) [
    | inl p ↦ rw (p, dry) refl
    | inr p ↦ rw p refl
  ]

  -- If the options say that the run is dry, and they name an email and a name, `run` ends in the
  -- state that the lookup of the user left, whatever it found.
  pub dry_run_writes_nothing :
      (args : Options) (id : Text) (s t : S) (found : Option Text)
      → truthy args.email ≡ true
      → truthy args.name ≡ true
      → args.dry_run ≡ true
      → users.find_role args.email s ≡ (ok found, t)
      → (run users args id s).1 ≡ t
  unfolding run write_user
  dry_run_writes_nothing args id s t found email name dry lookup =
      rw (email, name, lookup) (written args id found t dry)
