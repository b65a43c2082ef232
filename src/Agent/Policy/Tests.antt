-- ===== src/Agent/Policy/Tests.antt =====
-- The review of a small report.
use lineageiq.Common.{◌≡◌, ◌↔◌, true, false, none, refl}
use lineageiq.Agent.Policy.Floats.{close}
use lineageiq.Taxonomy.{Severity}
use lineageiq.Agent.Samples.{small_env, first_report}
use lineageiq.Agent.Policy.{evaluate_human_review}
use lineageiq.Agent.Policy.Escalation.{MustEscalate, evaluate_human_review-MustEscalate}

evaluate_human_review-MustEscalate_example :
    (((evaluate_human_review small_env first_report 2 Severity.high true false false).0 ≡ true)
      ↔ MustEscalate first_report 2 Severity.high true false false)
    × (((evaluate_human_review small_env first_report 2 Severity.high true false false).1 ≡ none)
        ↔ (¬ MustEscalate first_report 2 Severity.high true false false))
evaluate_human_review-MustEscalate_example =
    evaluate_human_review-MustEscalate small_env first_report 2 Severity.high true false false

-- 0.75 and 0.65, 0.86 and 0.76 are close as floats; 0.4 and 0.3, 0.2 and 0.1 are not.
tenth_apart :
    (close 7500 6500 ≡ true)
    × (close 7600 8600 ≡ true)
    × (close 4000 3000 ≡ false)
    × (close 2000 1000 ≡ false)
    × (close 8600 7200 ≡ false)
    × (close 0 999 ≡ true)
unfolding close
tenth_apart = (refl, refl, refl, refl, refl, refl)
