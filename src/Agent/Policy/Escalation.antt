-- ===== src/Agent/Policy/Escalation.antt =====
-- Escalation happens for the conditions of the review policy and for no other.
use lineageiq.Common.{
  ℕ, ◌<◌, String, Bool, true, false, ◌||◌, Option, none, some, join, subst, ||-elim, List, [], ◌∷◌,
  is_nil, ltb, any, ◌≡◌, ◌↔◌, refl, ◌∙◌, sym, arith, Bool-cases, inl, inr, ltb→lt, if◌then◌else◌,
}
use lineageiq.Taxonomy.{Severity, same_severity}
use lineageiq.Environment.{Env}
use lineageiq.Agent.Types.{InvestigationReport}
use lineageiq.Agent.Policy.{
  evaluate_human_review, conditions, append_reasons, review_threshold, similarly_probable,
  undetermined, high_risk,
}

-- The conditions under which docs/AGENT_DESIGN.md sends an investigation to a human.
pub data MustEscalate (report : InvestigationReport) (sources : ℕ) (severity : Severity)
    (budget_exhausted tool_conflict data_unavailable : Bool) : Type 0 where
  low_confidence :
      report.confidence < review_threshold
      → MustEscalate report sources severity budget_exhausted tool_conflict data_unavailable
  few_sources :
      sources < 2
      → MustEscalate report sources severity budget_exhausted tool_conflict data_unavailable
  conflict :
      tool_conflict ≡ true
      → MustEscalate report sources severity budget_exhausted tool_conflict data_unavailable
  exhausted :
      budget_exhausted ≡ true
      → MustEscalate report sources severity budget_exhausted tool_conflict data_unavailable
  unavailable :
      data_unavailable ≡ true
      → MustEscalate report sources severity budget_exhausted tool_conflict data_unavailable
  critical :
      severity ≡ Severity.critical
      → MustEscalate report sources severity budget_exhausted tool_conflict data_unavailable
  similar :
      similarly_probable report.root_cause_candidates ≡ true
      → MustEscalate report sources severity budget_exhausted tool_conflict data_unavailable
  unknown_cause :
      undetermined report.root_cause_candidates ≡ true
      → MustEscalate report sources severity budget_exhausted tool_conflict data_unavailable
  risky :
      high_risk report.remediation_recommendations ≡ true
      → MustEscalate report sources severity budget_exhausted tool_conflict data_unavailable

is_nil-append_reasons :
    (cs : List (Bool × String))
    → is_nil (append_reasons cs) ≡ (if any (λ c. c.0) cs then false else true)
unfolding append_reasons
is_nil-append_reasons [] = refl
is_nil-append_reasons ((true, reason) ∷ cs) = refl
is_nil-append_reasons ((false, reason) ∷ cs) = is_nil-append_reasons cs

critical_of_same :
    (severity : Severity)
    → same_severity severity Severity.critical ≡ true
    → severity ≡ Severity.critical
critical_of_same Severity.critical h = refl
critical_of_same Severity.low h = cc
critical_of_same _ h = cc

same_of_critical :
    (severity : Severity)
    → severity ≡ Severity.critical
    → same_severity severity Severity.critical ≡ true
same_of_critical severity h = rw h

module _ (env : Env) (report : InvestigationReport) (sources : ℕ) (severity : Severity)
    (budget_exhausted tool_conflict data_unavailable : Bool) where
  abbrev review : Bool × Option String
  review =
      evaluate_human_review env report sources severity budget_exhausted tool_conflict
        data_unavailable

  abbrev condition_list : List (Bool × String)
  condition_list =
      conditions env report sources severity budget_exhausted tool_conflict data_unavailable

  abbrev Escalation : Type 0
  Escalation = MustEscalate report sources severity budget_exhausted tool_conflict data_unavailable

  abbrev review_of : List String → Bool × Option String
  review_of reasons = if is_nil reasons then (false, none) else (true, some (join "; " reasons))

  review_lem : review ≡ review_of (append_reasons condition_list)
  unfolding evaluate_human_review
  review_lem = refl

  review_of_any :
      (reasons : List String) (found : Bool)
      → is_nil reasons ≡ (if found then false else true)
      → ((review_of reasons).0 ≡ found) × (((review_of reasons).1 ≡ none) ↔ (found ≡ false))
  review_of_any [] true h = cc
  review_of_any [] false h = (refl, (λ _. refl, λ _. refl))
  review_of_any (r ∷ rs) true h = (refl, (λ e. cc, λ e. cc))
  review_of_any (r ∷ rs) false h = cc

  review-any :
      (review.0 ≡ any (λ c. c.0) condition_list)
      × ((review.1 ≡ none) ↔ (any (λ c. c.0) condition_list ≡ false))
  review-any =
      subst
        (λ r.
          (r.0 ≡ any (λ c. c.0) condition_list)
          × ((r.1 ≡ none) ↔ (any (λ c. c.0) condition_list ≡ false)))
        (sym review_lem)
        (review_of_any (append_reasons condition_list) (any (λ c. c.0) condition_list)
          (is_nil-append_reasons condition_list))

  report_escalation :
      (same_severity severity Severity.critical
          || (similarly_probable report.root_cause_candidates
              || (undetermined report.root_cause_candidates
                  || (high_risk report.remediation_recommendations || false))))
        ≡ true
      → Escalation
  report_escalation h =
      ||-elim (same_severity severity Severity.critical) _ h
        (λ e. critical (critical_of_same severity e))
        λ h. ||-elim (similarly_probable report.root_cause_candidates) _ h similar λ h.
          ||-elim (undetermined report.root_cause_candidates) _ h unknown_cause
            λ h. ||-elim (high_risk report.remediation_recommendations) _ h risky (λ e. cc)

  escalation_of_any : any (λ c. c.0) condition_list ≡ true → Escalation
  unfolding conditions
  escalation_of_any h =
      ||-elim (ltb report.confidence review_threshold) _ h
        (λ e. low_confidence (ltb→lt report.confidence review_threshold e))
        λ h.
          ||-elim (ltb sources 2) _ h (λ e. few_sources (ltb→lt sources 2 e))
            λ h. ||-elim tool_conflict _ h conflict λ h.
              ||-elim budget_exhausted _ h exhausted
                λ h. ||-elim data_unavailable _ h unavailable report_escalation

  any_of_escalation : Escalation → any (λ c. c.0) condition_list ≡ true
  unfolding conditions
  any_of_escalation (low_confidence h) = ground arith
  any_of_escalation (few_sources h) = ground arith
  any_of_escalation (conflict h) = ground arith
  any_of_escalation (exhausted h) = ground arith
  any_of_escalation (unavailable h) = ground arith
  any_of_escalation (critical h) = ground (arith, same_of_critical severity h)
  any_of_escalation (similar h) = ground arith
  any_of_escalation (unknown_cause h) = ground arith
  any_of_escalation (risky h) = ground arith

  -- A human review is required exactly when a condition of the policy holds, and a reason is given
  -- exactly then.
  pub evaluate_human_review-MustEscalate :
      ((review.0 ≡ true) ↔ Escalation) × ((review.1 ≡ none) ↔ (¬ Escalation))
  evaluate_human_review-MustEscalate = (
    (λ h. escalation_of_any (sym review-any.0 ∙ h), λ x. review-any.0 ∙ any_of_escalation x),
    (
      λ h x. cc (review-any.1.0 h, any_of_escalation x),
      λ n. review-any.1.1 (elim (Bool-cases (any (λ c. c.0) condition_list)) [
        | inl e ↦ absurd (n (escalation_of_any e))
        | inr e ↦ e
      ]),
    ),
  )
