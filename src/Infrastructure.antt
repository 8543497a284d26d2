-- ===== src/Infrastructure.antt =====
-- infrastructure/database, infrastructure/cache and infrastructure/queue: the connections, the
-- helpers of the repositories and the queues. The clients of Prisma and Redis are parameters; the
-- log lines are left out.
pub mod Laws
mod Tests
use taksees.Prelude.{ℕ, ◌*◌, Bool, true, false, List, [], ◌∷◌, map, Option, Text, codes, ltb}
use taksees.Errors.{Exception}
use taksees.Effects.{Action, pure, raise, or_catch, ◌>>=◌}

-- `try { await …; } catch (err) { …; throw err; }`
abbrev pub or_rethrow : {S A : Type 0} → Action S A → Action S (Unit {0})
or_rethrow call s = or_catch ((call >>= λ _. pure tt) s) raise

-- The client that RedisService wraps.
pub record RedisClient (S : Type 0) : Type 0 where
  pub ping : Action S Text
  pub quit : Action S (Unit {0})

module _ {S : Type 0} (client : RedisClient S) where
  -- `RedisService.onModuleInit`, `onModuleDestroy` and `ping`
  unfoldable pub redis_init : Action S (Unit {0})
  redis_init s = or_rethrow client.ping s

  unfoldable pub redis_destroy : Action S (Unit {0})
  redis_destroy s = client.quit s

  unfoldable pub redis_ping : Action S Text
  redis_ping s = client.ping s

-- The client that PrismaService extends.
pub record PrismaClient (S : Type 0) : Type 0 where
  pub connect : Action S (Unit {0})
  pub disconnect : Action S (Unit {0})

module _ {S : Type 0} (client : PrismaClient S) where
  -- `PrismaService.onModuleInit` and `onModuleDestroy`
  unfoldable pub prisma_init : Action S (Unit {0})
  prisma_init s = or_rethrow client.connect s

  unfoldable pub prisma_destroy : Action S (Unit {0})
  prisma_destroy s = client.disconnect s

-- `ModelDelegate`, with the filters that the helpers pass.
pub record ModelDelegate (S : Type 0) (A : Type 0) : Type 0 where
  pub find_unique : (id : Text) → Action S (Option A)
  pub count : (id : Text) → Action S ℕ

module _ {S A : Type 0} (model : ModelDelegate S A) where
  unfoldable pub find_by_id : Text → Action S (Option A)
  find_by_id id = model.find_unique id

  unfoldable pub exists : Text → Action S Bool
  exists id = model.count id >>= λ n. pure (ltb 0 n)

-- `QueueName`
pub data QueueName : Type 0 where
  absence_generate : QueueName
  notifications_push : QueueName
  leaderboard_update : QueueName
  analytics_process : QueueName
  notifications_push_dlq : QueueName

-- `QUEUE_NAMES`
unfoldable pub queue_name : QueueName → Text
queue_name absence_generate = codes "absence.generate"
queue_name notifications_push = codes "notifications.push"
queue_name leaderboard_update = codes "leaderboard.update"
queue_name analytics_process = codes "analytics.process"
queue_name notifications_push_dlq = codes "notifications.push.dlq"

-- The queues of `BullModule.registerQueue`.
abbrev pub registered : List QueueName
registered =
    absence_generate ∷ notifications_push ∷ leaderboard_update ∷ analytics_process
    ∷ notifications_push_dlq ∷ []

-- The queues that the constructor of QueueHealthIndicator injects.
abbrev pub inspected : List QueueName
inspected = absence_generate ∷ notifications_push ∷ leaderboard_update ∷ analytics_process ∷ []

pub record JobOptions : Type 0 where
  pub attempts : ℕ
  pub backoff_type : Text
  pub backoff_delay : ℕ
  pub complete_age : ℕ
  pub complete_count : ℕ
  pub fail_age : ℕ

-- `DEFAULT_JOB_OPTIONS`
unfoldable pub default_job_options : JobOptions
default_job_options = record {
  attempts = 3;
  backoff_type = codes "exponential";
  backoff_delay = 5000;
  complete_age = 24 * 3600;
  complete_count = 1000;
  fail_age = 7 * 24 * 3600;
}
