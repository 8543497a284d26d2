-- ===== src/Health/Laws.antt =====
-- When the health checks pass.
use taksees.Prelude.{
  ℕ, ◌*◌, ◌≤◌, ◌≡◌, refl, sym, ap, subst, ◌∙◌, ◌↔◌, Bool, true, false, not, ◌||◌, arith,
}
use taksees.Health.{
  Answer, answers, fails, Checked, healthy, unhealthy, Stats, check_free, check_stats, check_disk,
  JobCounts, or_zero, is_failing, check_each, report_queues, check_queues,
}

-- Whether a check returns a status.
abbrev pub passes : {D : Type 0} → Checked D → Bool
passes (healthy d) = true
passes (unhealthy message d) = false

abbrev stats_or : Stats → Answer Stats → Stats
stats_or other (answers stats) = stats
stats_or other (fails message) = other

check_free_iff : (n : ℕ) → (passes (check_free n) ≡ true) ↔ (1073741824 ≤ n)
unfolding check_free
check_free_iff n = (λ h. ground (arith, h), λ h. ground (arith, h))

-- The disk check passes just if the directory can be made, its file system can be read, and the
-- available blocks make at least 1 GiB.
pub check_disk_iff :
    (made : Answer (Unit {0})) (read : Answer Stats)
    → (passes (check_disk made read) ≡ true) ↔ (
        (made ≡ answers tt)
        × ((stats : Stats) × (read ≡ answers stats) × (1073741824 ≤ stats.bavail * stats.bsize)))
unfolding check_disk check_stats check_free
check_disk_iff (fails message) read = (λ h. cc, λ (e, _). cc)
check_disk_iff (answers _) (fails message) = (λ h. cc, λ (_, (stats, e, _)). cc)
check_disk_iff (answers _) (answers stats) = (
  λ h. (refl, (stats, refl, (check_free_iff (stats.bavail * stats.bsize)).0 h)),
  λ (_, (stats', e, enough)).
      let same : stats ≡ stats' = ap (λ a. stats_or stats a) e in
      (check_free_iff (stats.bavail * stats.bsize)).1
        (subst (λ x. 1073741824 ≤ x.bavail * x.bsize) (sym same) enough),
)

-- A queue that answers, and has at most 100 failed jobs.
abbrev pub IsSound : Answer JobCounts → Type 0
IsSound (answers counts) = or_zero counts.failed ≤ 100
IsSound (fails message) = ⊥

is_failing_iff : (a : Answer JobCounts) → (is_failing a ≡ false) ↔ IsSound a
unfolding is_failing
is_failing_iff (answers counts) = (λ h. ground (arith, h), λ h. ground (arith, h))
is_failing_iff (fails message) = (λ h. cc, λ h. absurd h)

passes-check_queues :
    (a b c d : Answer JobCounts)
    → passes (check_queues a b c d)
      ≡ not (is_failing a || (is_failing b || (is_failing c || is_failing d)))
unfolding check_queues check_each report_queues
passes-check_queues a b c d = ground arith

-- The check of the queues passes just if each of the four queues answers and has at most 100 failed
-- jobs: a later queue never hides an earlier one.
pub check_queues_iff :
    (a b c d : Answer JobCounts)
    → (passes (check_queues a b c d) ≡ true) ↔ (IsSound a × IsSound b × IsSound c × IsSound d)
check_queues_iff a b c d = (
  λ h.
      let fine = sym (passes-check_queues a b c d) ∙ h in
      (
        (is_failing_iff a).0 (ground (arith, fine)),
        (is_failing_iff b).0 (ground (arith, fine)),
        (is_failing_iff c).0 (ground (arith, fine)),
        (is_failing_iff d).0 (ground (arith, fine)),
      ),
  λ (ha, hb, hc, hd).
      passes-check_queues a b c d
      ∙ rw
          (
            (is_failing_iff a).1 ha,
            (is_failing_iff b).1 hb,
            (is_failing_iff c).1 hc,
            (is_failing_iff d).1 hd,
          )
          refl,
)
