-- ===== src/Health/Tests.antt =====
-- Runs of the health checks.
use taksees.Prelude.{ℕ, ◌*◌, ◌≤◌, ◌≡◌, ◌↔◌, refl, true, false, Option, none, some, codes}
use taksees.Health.{
  Answer, answers, fails, Stats, check_disk, JobCounts, is_failing, check_each, report_queues,
  check_queues,
}
use taksees.Health.Laws.{passes, IsSound, check_disk_iff, check_queues_iff}

abbrev with_failed : Option ℕ → Answer JobCounts
with_failed n =
    answers (record { waiting = none; active = none; failed = n; delayed = none; completed = none })

abbrev down : Answer JobCounts
down = fails (codes "ECONNREFUSED")

bound_test :
    (passes (
        check_queues
          (with_failed (some 100))
          (with_failed none)
          (with_failed (some 0))
          (with_failed none))
      ≡ true)
    × (passes (
          check_queues
            (with_failed (some 101))
            (with_failed none)
            (with_failed (some 0))
            (with_failed none))
        ≡ false)
    × (passes (check_queues (with_failed none) down (with_failed none) (with_failed none)) ≡ false)
unfolding check_queues check_each report_queues is_failing
bound_test = (refl, refl, refl)

queues_bound_test :
    (passes (check_queues (with_failed (some 100)) (with_failed none) down (with_failed none))
      ≡ true)
    ↔ (IsSound (with_failed (some 100))
        × IsSound (with_failed none)
        × IsSound down
        × IsSound (with_failed none))
queues_bound_test =
    check_queues_iff (with_failed (some 100)) (with_failed none) down (with_failed none)

abbrev stats : Stats
stats = record { bavail = 262144; bsize = 4096 }

disk_bound_test : (passes (check_disk (answers tt) (answers stats)) ≡ true) ↔ (
    (answers tt ≡ answers tt)
    × ((st : Stats) × (answers stats ≡ answers st) × (1073741824 ≤ st.bavail * st.bsize)))
disk_bound_test = check_disk_iff (answers tt) (answers stats)
