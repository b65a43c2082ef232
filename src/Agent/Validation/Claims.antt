-- ===== src/Agent/Validation/Claims.antt =====
-- The unsupported claims that `validate_report` lists.
use lineageiq.Common.{String, List, keep, is_nil, length, ◌≡◌, ap, arith}
use lineageiq.Database.{Session}
use lineageiq.Environment.{Env}
use lineageiq.Agent.Types.{InvestigationReport}
use lineageiq.Agent.Validation.{
  ValidationResult, validate_report, evidence_of, evidence_ids_of, valid_support, empty_result,
  check_citations, check_codes, check_support, check_coverage,
}
use lineageiq.Agent.Validation.Checks.{
  check_citations_claims, check_codes_claims, check_support_claims, check_coverage_claims,
  check_remediations_claims,
}

-- Validation lists one unsupported claim for each candidate none of whose supporting ids is stored
-- for the incident, whatever the candidate's confidence, and no other.
pub length-unsupported_claims :
    (env : Env) (s : Session) (report : InvestigationReport)
    → length (validate_report env s report).unsupported_claims
      ≡ length (
          keep
            (λ c. is_nil (valid_support (evidence_ids_of (evidence_of report.incident_id s)) c))
            report.root_cause_candidates)
length-unsupported_claims env s report =
    let rows = evidence_of report.incident_id s in
    let ids = evidence_ids_of rows in
    let cs = report.root_cause_candidates in
    let cited = check_citations ids report empty_result in
    let coded = check_codes cs cited in
    let supported = check_support env ids cs coded in
    let covered = check_coverage env rows cs supported in
    let claims = λ (r : ValidationResult). length r.unsupported_claims in
    unfold validate_report in
    omega (
      arith,
      ap (λ (l : List String). length l)
          (check_remediations_claims report.remediation_recommendations covered),
      ap (λ (l : List String). length l) (check_coverage_claims supported env rows cs),
      check_support_claims env ids cs coded,
      ap (λ (l : List String). length l) (check_codes_claims cs cited),
      ap (λ (l : List String). length l) (check_citations_claims empty_result ids report),
    )
