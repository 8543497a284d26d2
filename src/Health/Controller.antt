-- ===== src/Health/Controller.antt =====
-- health/health.controller.ts: the four indicators, with the keys of their results. `check` of
-- Terminus, which the controller hands them to, is a parameter.
pub mod Laws
mod Tests
use taksees.Prelude.{List, [], ◌∷◌, Text, codes}
use taksees.Errors.{Result}
use taksees.Health.{
  Answer, Checked, healthy, unhealthy, Details, Stats, JobCounts, check_disk, check_prisma,
  check_redis, check_queues,
}

-- What an indicator reports under its key.
pub data Status : Type 0 where
  details : Details → Status
  queues : List (Text × Answer JobCounts) → Status

abbrev pub Reported : Type 0
Reported = Text × Checked Status

-- The result of an indicator, as one of the four.
abbrev pub as_status : {D : Type 0} → (D → Status) → Checked D → Checked Status
as_status f (healthy d) = healthy (f d)
as_status f (unhealthy message d) = unhealthy message (f d)

-- What the services that are looked at answer.
pub record Probes : Type 0 where
  pub database : Answer (Unit {0})
  pub redis : Answer Text
  pub absence : Answer JobCounts
  pub notifications : Answer JobCounts
  pub leaderboard : Answer JobCounts
  pub analytics : Answer JobCounts
  pub directory_made : Answer (Unit {0})
  pub file_system : Answer Stats

-- The list that `check` of the controller makes.
unfoldable pub indicators : Probes → List Reported
indicators p =
    (codes "database", as_status details (check_prisma p.database))
    ∷ (codes "redis", as_status details (check_redis p.redis))
    ∷ (
      codes "queues",
      as_status queues (check_queues p.absence p.notifications p.leaderboard p.analytics),
    )
    ∷ (codes "disk", as_status details (check_disk p.directory_made p.file_system))
    ∷ []

-- `HealthController.check`
unfoldable pub check : {R : Type 0} → (health_check : List Reported → Result R) → Probes → Result R
check health_check p = health_check (indicators p)
