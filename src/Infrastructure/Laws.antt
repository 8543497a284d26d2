-- ===== src/Infrastructure/Laws.antt =====
-- What the connections and the helpers of the repositories promise.
use taksees.Prelude.{
  ap, ℕ, zero, suc, ◌≡◌, ◌≢◌, refl, ◌↔◌, inl, inr, Bool, true, false, List, ◌∷◌, Option, none, some,
  Text, arith,
}
use taksees.Errors.{ok}
use taksees.Effects.{Action, pure, then_do, outcome_cases}
use taksees.Infrastructure.{
  or_rethrow, RedisClient, redis_init, PrismaClient, prisma_init, ModelDelegate, find_by_id, exists,
  QueueName, queue_name, absence_generate, notifications_push, leaderboard_update,
  analytics_process, notifications_push_dlq, registered, inspected,
}

or_rethrow_lem :
    {S A : Type 0} (call : Action S A) (s : S) → or_rethrow call s ≡ then_do (call s) (λ _. pure tt)
or_rethrow_lem call s = elim (outcome_cases (call s)) [
  | inl (a, t, e) ↦ rw e refl
  | inr (x, t, e) ↦ rw e refl
]

-- Redis and the database start just if their clients answer, and otherwise end with the error of
-- the client.
pub inits_lem :
    {S : Type 0} (redis : RedisClient S) (prisma : PrismaClient S) (s : S)
    → (redis_init redis s ≡ then_do (redis.ping s) (λ _. pure tt))
      × (prisma_init prisma s ≡ then_do (prisma.connect s) (λ _. pure tt))
unfolding redis_init prisma_init
inits_lem redis prisma s = (or_rethrow_lem redis.ping s, or_rethrow_lem prisma.connect s)

abbrev pub is_some : {A : Type 0} → Option A → Bool
is_some none = false
is_some (some a) = true

-- If a model counts a row just where it finds one, exists says whether findById finds one.
pub exists-find_by_id :
    {S A : Type 0} (model : ModelDelegate S A) (id : Text) (s t u : S) (found : Option A) (n : ℕ)
    → ((n ≡ 0) ↔ (found ≡ none))
    → find_by_id model id s ≡ (ok found, t)
    → model.count id s ≡ (ok n, u)
    → exists model id s ≡ (ok (is_some found), u)
unfolding find_by_id exists
exists-find_by_id model id s t u none n same found counted = rw (counted, same.1 refl) refl
exists-find_by_id model id s t u (some a) zero same found counted = cc (same.0 refl)
exists-find_by_id model id s t u (some a) (suc n) same found counted =
    rw counted (ap (λ b. (ok b, u)) (ground arith))

-- No two queues have one name.
pub queue_name-injective : (q r : QueueName) → queue_name q ≡ queue_name r → q ≡ r
unfolding queue_name
queue_name-injective q r e = ground arith

pub data IsIn (q : QueueName) : List QueueName → Type 0 where
  head : (rs : List QueueName) → IsIn q (q ∷ rs)
  tail : (r : QueueName) {rs : List QueueName} → IsIn q rs → IsIn q (r ∷ rs)

is_dlq : QueueName → Bool
is_dlq notifications_push_dlq = true
is_dlq absence_generate = false
is_dlq notifications_push = false
is_dlq leaderboard_update = false
is_dlq analytics_process = false

none_dlq : (q : QueueName) → IsIn q inspected → is_dlq q ≡ false
unfolding is_dlq
none_dlq _ (head _) = refl
none_dlq _ (tail _ (head _)) = refl
none_dlq _ (tail _ (tail _ (head _))) = refl
none_dlq _ (tail _ (tail _ (tail _ (head _)))) = refl
none_dlq _ (tail _ (tail _ (tail _ (tail _ m)))) = elim m [ ]

-- Every queue is registered, and the health check inspects all of them but the queue of dead
-- letters.
pub inspected_iff :
    (q : QueueName) → IsIn q registered × (IsIn q inspected ↔ (q ≢ notifications_push_dlq))
unfolding is_dlq
inspected_iff absence_generate = (head _, (λ m e. cc, λ _. head _))
inspected_iff notifications_push = (tail _ (head _), (λ m e. cc, λ _. tail _ (head _)))
inspected_iff leaderboard_update =
    (tail _ (tail _ (head _)), (λ m e. cc, λ _. tail _ (tail _ (head _))))
inspected_iff analytics_process =
    (tail _ (tail _ (tail _ (head _))), (λ m e. cc, λ _. tail _ (tail _ (tail _ (head _)))))
inspected_iff notifications_push_dlq = (
  tail _ (tail _ (tail _ (tail _ (head _)))),
  (λ m e. cc (none_dlq notifications_push_dlq m), λ ne. absurd (ne refl)),
)
