-- ===== src/Health/Controller/Tests.antt =====
-- A probe of a running service.
use taksees.Prelude.{
  ◌≡◌, ◌↔◌, ◌===◌, refl, true, false, List, all, Option, none, some, codes, ℕ, Bool,
}
use taksees.Errors.{Result, ok, throws, error}
use taksees.Health.{
  Answer, answers, JobCounts, check_redis, check_prisma, check_disk, check_stats, check_free,
  check_queues, check_each, report_queues, is_failing,
}
use taksees.Health.Laws.{passes}
use taksees.Health.Controller.{Reported, Probes, indicators, check}
use taksees.Health.Controller.Laws.{succeeds, IsRunning, check-IsRunning_iff}

-- Terminus: a report, or an exception.
report_or_throw : Bool → Result (Unit {0})
report_or_throw true = ok tt
report_or_throw false = throws (error (codes "Service Unavailable Exception"))

abbrev terminus : List Reported → Result (Unit {0})
terminus rs = report_or_throw (all (λ r. passes r.1) rs)

succeeds-report : (b : Bool) → succeeds (report_or_throw b) ≡ b
unfolding report_or_throw
succeeds-report true = refl
succeeds-report false = refl

abbrev failed_jobs : Option ℕ → Answer JobCounts
failed_jobs n =
    answers (record { waiting = none; active = none; failed = n; delayed = none; completed = none })

-- One queue at the bound, and just enough space.
abbrev running : Probes
running = record {
  database = answers tt;
  redis = answers (codes "PONG");
  absence = failed_jobs (some 100);
  notifications = failed_jobs none;
  leaderboard = failed_jobs (some 0);
  analytics = failed_jobs none;
  directory_made = answers tt;
  file_system = answers (record { bavail = 262144; bsize = 4096 });
}

running_test : succeeds (check terminus running) ≡ true
unfolding check indicators check_redis check_prisma check_disk check_stats check_free check_queues
    check_each report_queues is_failing report_or_throw ◌===◌
running_test = refl

check-IsRunning_iff_example : (succeeds (check terminus running) ≡ true) ↔ IsRunning running
check-IsRunning_iff_example =
    check-IsRunning_iff terminus (λ rs. succeeds-report (all (λ r. passes r.1) rs)) running
