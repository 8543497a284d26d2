-- ===== src/Classes/Services/ClassService/Laws.antt =====
-- Which writes the class service lets through, and which it refuses before they run.
use taksees.Prelude.{◌≡◌, refl, subst, Bool, true, false, Option, none, some, Text, arith, is_empty}
use taksees.Errors.{ok, throws, Exception, domain, class_not_found, leader_must_be_a_user}
use taksees.Effects.{then_do-ok}
use taksees.Classes.Entities.{Class}
use taksees.Classes.Interfaces.{CreateClassInput, UpdateClassInput, ClassRepository, UserDirectory}
use taksees.Classes.Services.ClassService.{
  found_or_throw, get_by_id, check_leader, create, check_new_leader, update, delete,
}

module _ {S : Type 0} (repo : ClassRepository S) (users : UserDirectory S) where
  check_leader-ok :
      (leader_id : Text) (b : Bool) (s t : S)
      → check_leader repo users leader_id b s ≡ (ok tt, t)
      → (b ≡ true) × (t ≡ s)
  unfolding check_leader
  check_leader-ok leader_id true s t h = (refl, ground arith)
  check_leader-ok leader_id false s t h = cc

  found_or_throw-ok :
      (id : Text) (o : Option Class) (s t : S) (klass : Class)
      → found_or_throw repo users id o s ≡ (ok klass, t)
      → (o ≡ some klass) × (t ≡ s)
  unfolding found_or_throw
  found_or_throw-ok id none s t klass h = cc
  found_or_throw-ok id (some k) s t klass h = (ground arith, ground arith)

  check_new_leader-ok :
      (leader_id : Text) (s t : S)
      → is_empty leader_id ≡ false
      → check_new_leader repo users (some leader_id) s ≡ (ok tt, t)
      → users.exists leader_id s ≡ (ok true, t)
  unfolding check_new_leader
  check_new_leader-ok leader_id s t given h =
      let (b, u, e, h₁) = then_do-ok (users.exists leader_id s) _ (rw given at h) in
      let (is_user, same) = check_leader-ok leader_id b u t h₁ in cc (e, is_user, same)

  -- If `create` returns, the directory has just found the leader, and the class is what the
  -- repository made of the input in the state that the lookup left.
  pub create_checks_leader :
      (input : CreateClassInput) (s t : S) (klass : Class)
      → create repo users input s ≡ (ok klass, t)
      → (u : S) × (users.exists input.leader_id s ≡ (ok true, u))
        × (repo.create input u ≡ (ok klass, t))
  unfolding create
  create_checks_leader input s t klass h =
      let (b, u, e, h₁) = then_do-ok (users.exists input.leader_id s) _ h in
      let (_, u', c, h₂) = then_do-ok (check_leader repo users input.leader_id b u) _ h₁ in
      let (is_user, same) = check_leader-ok input.leader_id b u u' c in
      (u', cc (e, is_user, same), h₂)

  -- If `update` returns and a new leader is given, the class was found, then the leader was, and
  -- the class is what the repository made of the input in the state that the lookups left.
  pub update_checks_leader :
      (id leader_id : Text) (input : UpdateClassInput) (s t : S) (klass : Class)
      → input.leader_id ≡ some leader_id
      → is_empty leader_id ≡ false
      → update repo users id input s ≡ (ok klass, t)
      → (old : Class) × (u v : S) × (repo.find_by_id id s ≡ (ok (some old), u))
        × (users.exists leader_id u ≡ (ok true, v))
        × (repo.update id input v ≡ (ok klass, t))
  unfolding update get_by_id
  update_checks_leader id leader_id input s t klass is_given given h =
      let (old, u, e, h₁) = then_do-ok (get_by_id repo users id s) _ h in
      let (o, u', e', h₂) = then_do-ok (repo.find_by_id id s) _ e in
      let (found, same) = found_or_throw-ok id o u' u old h₂ in
      let (_, v, c, h₃) = then_do-ok (check_new_leader repo users input.leader_id u) _ h₁ in
      let checked =
        check_new_leader-ok leader_id u v given
          (subst (λ o. check_new_leader repo users o u ≡ (ok tt, v)) is_given c) in
      (old, u, v, cc (e', found, same), checked, h₃)

  -- If the lookup finds no class, `get_by_id`, `update` and `delete` throw the error for the
  -- missing class in the state that the lookup left; if it finds no such user, `create` throws the
  -- error for the leader.
  pub class_refused :
      (id : Text) (change : UpdateClassInput) (input : CreateClassInput) (s u v : S)
      → repo.find_by_id id s ≡ (ok none, u)
      → users.exists input.leader_id s ≡ (ok false, v)
      → let e : Exception = domain (class_not_found id) in
        (get_by_id repo users id s ≡ (throws e, u))
        × (update repo users id change s ≡ (throws e, u))
        × (delete repo users id s ≡ (throws e, u))
        × (create repo users input s ≡ (throws (domain (leader_must_be_a_user input.leader_id)), v))
  unfolding get_by_id update delete create found_or_throw check_leader
  class_refused id change input s u v h k = (rw h refl, rw h refl, rw h refl, rw k refl)
