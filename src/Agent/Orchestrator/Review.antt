-- ===== src/Agent/Orchestrator/Review.antt =====
-- When a report of backend/app/agent/orchestrator.py goes to a human.
use lineageiq.Common.{
  ℕ, String, Bool, true, false, Option, List, ◌≡◌, ◌↔◌, ◌⊎◌, inl, inr, refl, ap, ◌∙◌, sym,
  if◌then◌else◌,
}
use lineageiq.Taxonomy.{Severity}
use lineageiq.Database.{Session}
use lineageiq.Environment.{Env}
use lineageiq.Agent.Types.{InvestigationContext, InvestigationReport}
use lineageiq.Agent.Validation.{validate_report}
use lineageiq.Agent.Validation.Grounding.{IsGrounded, validate_report-IsGrounded}
use lineageiq.Agent.Policy.{evaluate_human_review}
use lineageiq.Agent.Policy.Escalation.{
  MustEscalate, low_confidence, few_sources, conflict, exhausted, unavailable, critical, similar,
  unknown_cause, risky, evaluate_human_review-MustEscalate,
}
use lineageiq.Agent.Orchestrator.{review_report, source_count}

flag_of :
    (passed : Bool) (review : Bool × Option String) (reason : Option String)
    → (if passed then review else (true, reason)).0 ≡ (if passed then review.0 else true)
flag_of true review reason = refl
flag_of false review reason = refl

-- The claims are not part of the policy.
with_claims :
    {sources : ℕ} {severity : Severity} {budget_exhausted tool_conflict data_unavailable : Bool}
    (report : InvestigationReport) (claims : List String)
    → MustEscalate report sources severity budget_exhausted tool_conflict data_unavailable
    → MustEscalate
        (record report { unsupported_claims = claims })
        sources
        severity
        budget_exhausted
        tool_conflict
        data_unavailable
with_claims report claims (low_confidence h) = low_confidence h
with_claims report claims (few_sources h) = few_sources h
with_claims report claims (conflict h) = conflict h
with_claims report claims (exhausted h) = exhausted h
with_claims report claims (unavailable h) = unavailable h
with_claims report claims (critical h) = critical h
with_claims report claims (similar h) = similar h
with_claims report claims (unknown_cause h) = unknown_cause h
with_claims report claims (risky h) = risky h

module _ (env : Env) (s : Session) (ctx : InvestigationContext) (budget_exhausted : Bool)
    (report : InvestigationReport) where
  abbrev reviewed : InvestigationReport
  reviewed = (review_report env s ctx budget_exhausted report).0

  abbrev sources : ℕ
  sources = source_count ctx.collected

  abbrev checked : InvestigationReport
  checked = record report { unsupported_claims = (validate_report env s report).unsupported_claims }

  abbrev policy : Bool × Option String
  policy = evaluate_human_review env checked sources ctx.severity budget_exhausted false false

  reviewed_flag :
      reviewed.requires_human_review
      ≡ (if (validate_report env s report).passed then policy.0 else true)
  unfolding review_report
  reviewed_flag = flag_of (validate_report env s report).passed policy _

  -- A report requires human review exactly when it is not grounded in the session or a condition of
  -- the review policy holds for it.
  pub review_report-MustEscalate : (reviewed.requires_human_review ≡ true) ↔ (
      (¬ IsGrounded s report)
      ⊎ MustEscalate report sources ctx.severity budget_exhausted false false)
  review_report-MustEscalate = of_passed (validate_report env s report).passed refl
    where
      policy_rule :
          (policy.0 ≡ true) ↔ MustEscalate checked sources ctx.severity budget_exhausted false false
      policy_rule =
          (evaluate_human_review-MustEscalate env checked sources ctx.severity budget_exhausted
            false false).0

      of_passed :
          (passed : Bool)
          → (validate_report env s report).passed ≡ passed
          → (reviewed.requires_human_review ≡ true) ↔ (
              (¬ IsGrounded s report)
              ⊎ MustEscalate report sources ctx.severity budget_exhausted false false)
      of_passed true e =
          let flag : reviewed.requires_human_review ≡ policy.0 =
            reviewed_flag ∙ ap (λ b. if b then policy.0 else true) e in
          (
            λ h. inr (with_claims checked report.unsupported_claims (policy_rule.0 (sym flag ∙ h))),
            λ x. elim x [
              | inl n ↦ absurd (n ((validate_report-IsGrounded env s report).0 e))
              | inr m ↦ flag ∙ policy_rule.1 (with_claims report checked.unsupported_claims m)
            ],
          )
      of_passed false e = (
        λ h. inl (λ g. cc (e, (validate_report-IsGrounded env s report).1 g)),
        λ x. reviewed_flag ∙ ap (λ b. if b then policy.0 else true) e,
      )
