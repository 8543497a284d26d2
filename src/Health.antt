-- ===== src/Health.antt =====
-- health/indicators/. What the calls to the file system, the database, Redis and the queues answer
-- are arguments; a status carries the details that are reported with it.
pub mod Laws
pub mod Controller
mod Tests
use taksees.Prelude.{
  ℕ, ◌+◌, ◌*◌, Bool, true, false, not, ◌||◌, List, [], ◌∷◌, Option, none, some, Text, codes, ltb,
  leb, ◌===◌, if◌then◌else◌,
}

-- The answer of an awaited call, or the message of the error that it throws.
pub data Answer (A : Type 0) : Type 0 where
  answers : A → Answer A
  fails : (message : Text) → Answer A

-- `isHealthy`: the status that is returned, or the `HealthCheckError` with its status.
pub data Checked (D : Type 0) : Type 0 where
  healthy : D → Checked D
  unhealthy : (message : Text) → D → Checked D

-- The details of the status of the disk, the database and Redis.
pub data Details : Type 0 where
  disk_space : (free_bytes : ℕ) → Details
  reply : Text → Details
  nothing : Details
  failure : (message : Text) → Details

-- `FREE_BYTES_THRESHOLD`
abbrev pub free_bytes_threshold : ℕ
free_bytes_threshold = 1 * 1024 * 1024 * 1024

pub record Stats : Type 0 where
  pub bavail : ℕ
  pub bsize : ℕ

-- `DiskHealthIndicator`, after the free bytes are known
unfoldable pub check_free : ℕ → Checked Details
check_free free_bytes =
    if ltb free_bytes free_bytes_threshold
    then unhealthy (codes "Low disk space") (disk_space free_bytes)
    else healthy (disk_space free_bytes)

unfoldable pub check_stats : Answer Stats → Checked Details
check_stats (fails message) = unhealthy (codes "Disk check failed") (failure message)
check_stats (answers stats) = check_free (stats.bavail * stats.bsize)

-- `DiskHealthIndicator.isHealthy`, over the answers of `mkdir` and `statfs`
unfoldable pub check_disk : Answer (Unit {0}) → Answer Stats → Checked Details
check_disk (fails message) stats = unhealthy (codes "Disk check failed") (failure message)
check_disk (answers _) stats = check_stats stats

-- `PrismaHealthIndicator.isHealthy`
unfoldable pub check_prisma : Answer (Unit {0}) → Checked Details
check_prisma (answers _) = healthy nothing
check_prisma (fails message) = unhealthy (codes "Prisma check failed") (failure message)

-- `RedisHealthIndicator.isHealthy`, over the answer of `PING`
unfoldable pub check_redis : Answer Text → Checked Details
check_redis (fails message) = unhealthy (codes "Redis check failed") (failure message)
check_redis (answers text) =
    if text === codes "PONG"
    then healthy (reply text)
    else unhealthy (codes "Redis did not reply PONG") (reply text)

-- What `getJobCounts` answers for a queue; a count may be missing.
pub record JobCounts : Type 0 where
  pub waiting : Option ℕ
  pub active : Option ℕ
  pub failed : Option ℕ
  pub delayed : Option ℕ
  pub completed : Option ℕ

-- `this.warningThreshold`
abbrev pub warning_threshold : ℕ
warning_threshold = 100

-- `counts.failed ?? 0`
abbrev pub or_zero : Option ℕ → ℕ
or_zero none = 0
or_zero (some n) = n

-- Whether a queue sets `anyFailing`.
unfoldable pub is_failing : Answer JobCounts → Bool
is_failing (fails message) = true
is_failing (answers counts) = ltb warning_threshold (or_zero counts.failed)

pub record Loop : Type 0 where
  pub details : List (Text × Answer JobCounts)
  pub any_failing : Bool

-- The loop over `queues`; the details are newest first.
unfoldable pub check_each : List (Text × Answer JobCounts) → Loop → Loop
check_each [] l = l
check_each ((name, answer) ∷ queues) l = check_each queues (record {
  details = (name, answer) ∷ l.details;
  any_failing = if is_failing answer then true else l.any_failing;
})

-- The end of `QueueHealthIndicator.isHealthy`
unfoldable pub report_queues : Loop → Checked (List (Text × Answer JobCounts))
report_queues l =
    if l.any_failing
    then unhealthy (codes "One or more queues are unhealthy") l.details
    else healthy l.details

-- `QueueHealthIndicator.isHealthy`, over what the four queues answer
unfoldable pub check_queues :
    (absence notifications leaderboard analytics : Answer JobCounts)
    → Checked (List (Text × Answer JobCounts))
check_queues absence notifications leaderboard analytics = report_queues (
    check_each
      ((codes "absence", absence)
        ∷ (codes "notifications", notifications)
        ∷ (codes "leaderboard", leaderboard)
        ∷ (codes "analytics", analytics)
        ∷ [])
      (record { details = []; any_failing = false }))
