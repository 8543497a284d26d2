-- ===== src/Seed/Laws.antt =====
-- What the script guarantees of its wipe, and where it ends.
use taksees.Prelude.{◌≡◌, refl, ap, Bool, true, false, Text, codes}
use taksees.Errors.{ok, throws, Exception}
use taksees.Effects.{◌>>=◌, ◌>>◌}
use taksees.Seed.Calls.{
  Table, servant_classes, members, classes, sessions, accounts, verifications, users, SeedUser,
  Client, Env, Drawn, Outside, password_of, email_of, name_of,
}
use taksees.Seed.{
  wipe, sign_up, create_admin, create_super_admin_directly, create_others, is_closed,
  check_password, main,
}

-- A row of the first table that refers to a row of the second forbids its deletion.
pub data Restricts : Table → Table → Type 0 where
  member_class : Restricts members classes
  class_leader : Restricts classes users

-- What the database promises of `deleteMany`: if no row of another table forbids it, it empties the
-- table, and no table gets rows.
pub record IsDatabase {S : Type 0} (client : Client S) (IsClear : Table → S → Type 0) : Type 0 where
  pub clears :
      (t : Table) (s : S)
      → ((u : Table) → Restricts u t → IsClear u s)
      → (r : S) × (client.delete_all t s ≡ (ok tt, r))
        × IsClear t r
        × ((u : Table) → IsClear u s → IsClear u r)
  -- the state holds these tables only
  pub one_empty : (s t : S) → ((u : Table) → IsClear u s) → ((u : Table) → IsClear u t) → s ≡ t

module _ {S : Type 0} (client : Client S) (IsClear : Table → S → Type 0)
    (lawful : IsDatabase client IsClear) where
  is_restricted : Table → Bool
  is_restricted classes = true
  is_restricted users = true
  is_restricted _ = false

  free : (t : Table) {s : S} → is_restricted t ≡ false → (u : Table) → Restricts u t → IsClear u s
  unfolding is_restricted
  free _ h _ member_class = cc
  free _ h _ class_leader = cc

  class_free : {s : S} → IsClear members s → (u : Table) → Restricts u classes → IsClear u s
  class_free clear _ member_class = clear

  user_free : {s : S} → IsClear classes s → (u : Table) → Restricts u users → IsClear u s
  user_free clear _ class_leader = clear

  -- From every state, whatever rows there are, the deletions all succeed in the order in which the
  -- script makes them, and then all seven tables are empty.
  pub wipe_clears : (s : S) → (r : S) × (wipe client s ≡ (ok tt, r)) × ((t : Table) → IsClear t r)
  unfolding wipe is_restricted
  wipe_clears s =
      let (s1, e1, c1, k1) = lawful.clears servant_classes s (free _ refl) in
      let (s2, e2, c2, k2) = lawful.clears members s1 (free _ refl) in
      let (s3, e3, c3, k3) = lawful.clears classes s2 (class_free c2) in
      let (s4, e4, c4, k4) = lawful.clears sessions s3 (free _ refl) in
      let (s5, e5, c5, k5) = lawful.clears accounts s4 (free _ refl) in
      let (s6, e6, c6, k6) = lawful.clears verifications s5 (free _ refl) in
      let later = λ (u : Table) (c : IsClear u s3). k6 u (k5 u (k4 u c)) in
      let (s7, e7, c7, k7) = lawful.clears users s6 (user_free (later classes c3)) in
      (
        s7,
        rw (e1, e2, e3, e4, e5, e6) e7,
        λ t. elim t as (λ k. IsClear k s7) [
          | servant_classes ↦ k7 _ (later _ (k3 _ (k2 _ c1)))
          | members ↦ k7 _ (later _ (k3 _ c2))
          | classes ↦ k7 _ (later _ c3)
          | sessions ↦ k7 _ (k6 _ (k5 _ c4))
          | accounts ↦ k7 _ (k6 _ c5)
          | verifications ↦ k7 _ c6
          | users ↦ c7
        ],
      )

  module _ (outside : Outside) (env : Env) (drawn : Drawn) where
    -- Whatever the database held before, a run ends in the same result and leaves the same
    -- database, if what the script draws is the same.
    pub main_forgets : (s t : S) → main client outside env drawn s ≡ main client outside env drawn t
    unfolding main
    main_forgets s t =
        let (u, e, c) = wipe_clears s in
        let (v, f, d) = wipe_clears t in
        rw (e, f)
          (ap
            (λ r.
              (create_admin client outside env drawn >>= λ admin.
              create_others client outside env >> check_password client outside env admin)
                r)
            (lawful.one_empty u v c d))

module _ {S : Type 0} (client : Client S) (outside : Outside) (env : Env) (drawn : Drawn) where
  -- If every sign-up is refused with an exception whose message says `disabled` or `not found`, as
  -- in production, and the wipe and the direct creation of the admin succeed, then `main` rejects
  -- with that exception, and what it leaves is the wiped database with the admin.
  pub main_without_sign_up :
      (refused : Exception) (s t u : S) (admin : SeedUser)
      → is_closed outside refused ≡ true
      → ((email password name : Text) (r : S)
          → client.sign_up_email email password name r ≡ (throws refused, r))
      → wipe client s ≡ (ok tt, t)
      → create_super_admin_directly client outside env drawn t ≡ (ok admin, u)
      → main client outside env drawn s ≡ (throws refused, u)
  unfolding main create_admin create_others sign_up
  main_without_sign_up refused s t u admin closed off wiped created =
      rw
        (
          wiped,
          off (email_of env) (password_of env) (name_of env) t,
          closed,
          created,
          off (codes "leader.primary1@taksees.app") (password_of env) (codes "Lina A.") u,
        )
        refl
