-- ===== src/Health/Controller/Laws.antt =====
-- When GET /health reports that the service is up.
use taksees.Prelude.{
  ◌≤◌, ◌*◌, ◌≡◌, refl, sym, ap, ◌∙◌, ◌↔◌, Bool, true, false, List, all, Text, codes, ===_iff, arith,
}
use taksees.Errors.{Result, ok, throws}
use taksees.Health.{
  Answer, answers, fails, Checked, healthy, unhealthy, Stats, check_disk, check_prisma, check_redis,
  check_queues,
}
use taksees.Health.Laws.{passes, check_disk_iff, check_queues_iff, IsSound}
use taksees.Health.Controller.{
  Status, details, queues, Reported, as_status, Probes, indicators, check,
}

abbrev pub succeeds : {A : Type 0} → Result A → Bool
succeeds (ok a) = true
succeeds (throws e) = false

passes-as_status : {D : Type 0} (f : D → Status) (c : Checked D) → passes (as_status f c) ≡ passes c
passes-as_status f (healthy d) = refl
passes-as_status f (unhealthy message d) = refl

answer_or : Text → Answer Text → Text
answer_or other (answers text) = text
answer_or other (fails message) = other

check_redis_iff : (a : Answer Text) → (passes (check_redis a) ≡ true) ↔ (a ≡ answers (codes "PONG"))
unfolding check_redis answer_or
check_redis_iff (fails message) = (λ h. cc, λ e. cc)
check_redis_iff (answers text) = (
  λ h. ap answers ((===_iff text (codes "PONG")).0 (ground (arith, h))),
  λ e. let same = (===_iff text (codes "PONG")).1 (ap (answer_or text) e) in ground (arith, same),
)

check_prisma_iff : (a : Answer (Unit {0})) → (passes (check_prisma a) ≡ true) ↔ (a ≡ answers tt)
unfolding check_prisma
check_prisma_iff (answers _) = (λ h. refl, λ e. refl)
check_prisma_iff (fails message) = (λ h. cc, λ e. cc)

-- The conditions that the four indicators watch.
pub record IsRunning (p : Probes) : Type 0 where
  pub database : p.database ≡ answers tt
  pub redis : p.redis ≡ answers (codes "PONG")
  pub absence : IsSound p.absence
  pub notifications : IsSound p.notifications
  pub leaderboard : IsSound p.leaderboard
  pub analytics : IsSound p.analytics
  pub directory_made : p.directory_made ≡ answers tt
  pub free_space :
      (stats : Stats) × (p.file_system ≡ answers stats) × (1073741824 ≤ stats.bavail * stats.bsize)

all-indicators :
    (p : Probes)
    → (all (λ r. passes r.1) (indicators p) ≡ true) ↔ (
        (passes (check_prisma p.database) ≡ true)
        × (passes (check_redis p.redis) ≡ true)
        × (passes (check_queues p.absence p.notifications p.leaderboard p.analytics) ≡ true)
        × (passes (check_disk p.directory_made p.file_system) ≡ true))
unfolding indicators
all-indicators p =
    let a = passes-as_status details (check_prisma p.database) in
    let b = passes-as_status details (check_redis p.redis) in
    let c =
      passes-as_status queues (check_queues p.absence p.notifications p.leaderboard p.analytics) in
    let d = passes-as_status details (check_disk p.directory_made p.file_system) in
    rw (a, b, c, d)
      (
        λ h. (ground (arith, h), ground (arith, h), ground (arith, h), ground (arith, h)),
        λ h. ground (arith, h),
      )

-- If `check` of Terminus returns a report just when every indicator that it is given succeeds, then
-- GET /health returns a report just when the database answers, Redis answers PONG, each of the four
-- queues answers and has at most 100 failed jobs, the storage directory can be made, and its file
-- system can be read and has at least 1 GiB available. Whether the directory can be written does
-- not count, although the comment of the indicator says that it does.
pub check-IsRunning_iff :
    {R : Type 0} (health_check : List Reported → Result R)
    (reports : (rs : List Reported) → succeeds (health_check rs) ≡ all (λ r. passes r.1) rs)
    (p : Probes)
    → (succeeds (check health_check p) ≡ true) ↔ IsRunning p
unfolding check
check-IsRunning_iff health_check reports p =
    let (from, to) = all-indicators p in
    (
      λ h.
          let (db, redis, sound, disk) = from (sym (reports (indicators p)) ∙ h) in
          let (qa, qn, ql, qt) =
            (check_queues_iff p.absence p.notifications p.leaderboard p.analytics).0 sound in
          let (made, free) = (check_disk_iff p.directory_made p.file_system).0 disk in
          record {
            database = (check_prisma_iff p.database).0 db;
            redis = (check_redis_iff p.redis).0 redis;
            absence = qa;
            notifications = qn;
            leaderboard = ql;
            analytics = qt;
            directory_made = made;
            free_space = free;
          },
      λ up.
          reports (indicators p)
          ∙ to (
            (check_prisma_iff p.database).1 up.database,
            (check_redis_iff p.redis).1 up.redis,
            (check_queues_iff p.absence p.notifications p.leaderboard p.analytics).1
                (up.absence, up.notifications, up.leaderboard, up.analytics),
            (check_disk_iff p.directory_made p.file_system).1 (up.directory_made, up.free_space),
          ),
    )
