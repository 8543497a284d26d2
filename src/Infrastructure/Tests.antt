-- ===== src/Infrastructure/Tests.antt =====
-- The options of a job, and a model with one row.
use taksees.Prelude.{
  ◌≡◌, refl, true, false, ◌===◌, if◌then◌else◌, none, some, Text, codes, List, [],
}
use taksees.Errors.{ok, throws, error}
use taksees.Effects.{pure}
use taksees.Infrastructure.{RedisClient, redis_init, ModelDelegate, exists, default_job_options}

abbrev one_row : ModelDelegate (List Text) Text
one_row = record {
  find_unique = λ id. pure (if id === codes "a" then some (codes "row") else none);
  count = λ id. pure (if id === codes "a" then 1 else 0);
}

exists_test :
    (exists one_row (codes "a") [] ≡ (ok true, []))
    × (exists one_row (codes "b") [] ≡ (ok false, []))
unfolding exists ◌===◌
exists_test = (refl, refl)

abbrev down : RedisClient (List Text)
down = record { ping = λ s. (throws (error (codes "ECONNREFUSED")), s); quit = pure tt }

down_test : redis_init down [] ≡ (throws (error (codes "ECONNREFUSED")), [])
unfolding redis_init
down_test = refl

week_test : default_job_options.fail_age ≡ 604800
unfolding default_job_options
week_test = refl
