-- ===== src/Agent/Policy.antt =====
-- backend/app/agent/policy.py: when an investigation goes to a human.
mod Floats
pub mod Escalation
mod Tests
use lineageiq.Common.{
  ℕ, ◌+◌, ◌-◌, String, Bool, true, false, ◌&&◌, ◌||◌, Option, none, some, List, [], ◌∷◌, ◌++◌,
  concat, join, any, is_nil, str_eq, leb, ltb, if◌then◌else◌,
}
use lineageiq.Taxonomy.{Severity, same_severity}
use lineageiq.Environment.{Env}
use lineageiq.Agent.Policy.Floats.{close}
use lineageiq.Agent.Types.{InvestigationReport, RootCauseCandidate, RemediationRecommendation}

-- `CONFIDENCE_THRESHOLD`, 0.65
abbrev pub review_threshold : ℕ
review_threshold = 6500

-- `if condition: reasons.append(reason)`, one statement after the other
append_reasons : List (Bool × String) → List String
append_reasons [] = []
append_reasons ((condition, reason) ∷ rest) =
    if condition then reason ∷ append_reasons rest else append_reasons rest

-- `len(candidates) >= 2 and abs(candidates[0].confidence - candidates[1].confidence) < 0.1`
abbrev pub similarly_probable : List RootCauseCandidate → Bool
similarly_probable [] = false
similarly_probable (c ∷ []) = false
similarly_probable (c ∷ d ∷ cs) = close c.confidence d.confidence

-- `not candidates or candidates[0].root_cause_code == "UNKNOWN"`
abbrev pub undetermined : List RootCauseCandidate → Bool
undetermined [] = true
undetermined (c ∷ cs) = str_eq c.root_cause_code "UNKNOWN"

abbrev pub high_risk : List RemediationRecommendation → Bool
high_risk ms = any (λ m. str_eq m.risk "high") ms

-- The conditions with their reasons, in the order of the statements.
conditions : Env → InvestigationReport → ℕ → Severity → Bool → Bool → Bool → List (Bool × String)
conditions env report sources severity budget_exhausted tool_conflict data_unavailable =
    (
      ltb report.confidence review_threshold,
      concat ("confidence " ∷ env.fixed2 report.confidence ∷ " < " ∷ "0.65" ∷ []),
    )
    ∷ (ltb sources 2, "fewer than two independent evidence sources")
    ∷ (tool_conflict, "tool results conflict")
    ∷ (budget_exhausted, "investigation budget reached")
    ∷ (data_unavailable, "critical data unavailable")
    ∷ (same_severity severity Severity.critical, "incident severity is critical")
    ∷ (similarly_probable report.root_cause_candidates, "multiple root causes similarly probable")
    ∷ (undetermined report.root_cause_candidates, "root cause undetermined / outside taxonomy")
    ∷ (
      high_risk report.remediation_recommendations,
      "proposed remediation could alter production data",
    )
    ∷ []

-- `(requires_human_review, reason)`
unfoldable pub evaluate_human_review :
    Env → InvestigationReport → ℕ → Severity → Bool → Bool → Bool → Bool × Option String
unfolding conditions append_reasons
evaluate_human_review env report sources severity budget_exhausted tool_conflict data_unavailable =
    let reasons =
      append_reasons
        (conditions env report sources severity budget_exhausted tool_conflict data_unavailable) in
    if is_nil reasons then (false, none) else (true, some (join "; " reasons))
