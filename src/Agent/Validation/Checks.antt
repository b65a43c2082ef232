-- ===== src/Agent/Validation/Checks.antt =====
-- What each check of `validate_report` does to `passed` and to the unsupported claims.
use lineageiq.Common.{
  ◌+◌, String, Bool, not, ◌&&◌, ◌||◌, List, [], ◌∷◌, length, all, is_nil, keep, ltb, ◌≡◌, refl,
  arith, length-append, concat, ◌∙◌, if◌then◌else◌,
}
use lineageiq.Database.{Evidence}
use lineageiq.Environment.{Env}
use lineageiq.Agent.Types.{InvestigationReport, RootCauseCandidate, RemediationRecommendation}
use lineageiq.Agent.Validation.{
  ValidationResult, add_issue, invalid_citations, check_citations, known_code, check_code,
  check_codes, check_remediation, valid_support, confidence_threshold, check_candidate,
  check_support, check_coverage, claims_execution, check_remediations,
}

abbrev pub code_ok : RootCauseCandidate → Bool
code_ok c = known_code c.root_cause_code

abbrev pub support_ok : List String → RootCauseCandidate → Bool
support_ok ids c = not (is_nil (valid_support ids c)) || ltb c.confidence confidence_threshold

abbrev pub remediation_ok : RemediationRecommendation → Bool
remediation_ok m = not (claims_execution m.action || not m.requires_approval)

module _ (r : ValidationResult) where
  pub check_citations_passed :
      (ids : List String) (report : InvestigationReport)
      → (check_citations ids report r).passed ≡ (is_nil (invalid_citations ids report) && r.passed)
  unfolding check_citations add_issue
  check_citations_passed ids report = ground arith

  pub check_citations_claims :
      (ids : List String) (report : InvestigationReport)
      → (check_citations ids report r).unsupported_claims ≡ r.unsupported_claims
  unfolding check_citations add_issue
  check_citations_claims ids report = ground arith

  pub check_candidate_passed :
      (env : Env) (ids : List String) (c : RootCauseCandidate)
      → (check_candidate env ids c r).passed ≡ (support_ok ids c && r.passed)
  unfolding check_candidate add_issue
  check_candidate_passed env ids c = ground arith

  pub check_coverage_passed :
      (env : Env) (rows : List Evidence) (cs : List RootCauseCandidate)
      → (check_coverage env rows cs r).passed ≡ r.passed
  unfolding check_coverage add_issue
  check_coverage_passed env rows [] = refl
  check_coverage_passed env rows (c ∷ cs) = ground arith

  pub check_coverage_claims :
      (env : Env) (rows : List Evidence) (cs : List RootCauseCandidate)
      → (check_coverage env rows cs r).unsupported_claims ≡ r.unsupported_claims
  unfolding check_coverage add_issue
  check_coverage_claims env rows [] = refl
  check_coverage_claims env rows (c ∷ cs) = ground arith

pub check_codes_passed :
    (cs : List RootCauseCandidate) (r : ValidationResult)
    → (check_codes cs r).passed ≡ (all code_ok cs && r.passed)
unfolding check_codes check_code add_issue
check_codes_passed [] r = refl
check_codes_passed (c ∷ cs) r = check_codes_passed cs (check_code c r) ∙ ground arith

pub check_codes_claims :
    (cs : List RootCauseCandidate) (r : ValidationResult)
    → (check_codes cs r).unsupported_claims ≡ r.unsupported_claims
unfolding check_codes check_code add_issue
check_codes_claims [] r = refl
check_codes_claims (c ∷ cs) r = check_codes_claims cs (check_code c r) ∙ ground arith

pub check_support_passed :
    (env : Env) (ids : List String) (cs : List RootCauseCandidate) (r : ValidationResult)
    → (check_support env ids cs r).passed ≡ (all (support_ok ids) cs && r.passed)
unfolding check_support
check_support_passed env ids [] r = refl
check_support_passed env ids (c ∷ cs) r =
    check_support_passed env ids cs (check_candidate env ids c r)
    ∙ ground (arith, check_candidate_passed r env ids c)

pub check_remediations_passed :
    (ms : List RemediationRecommendation) (r : ValidationResult)
    → (check_remediations ms r).passed ≡ (all remediation_ok ms && r.passed)
unfolding check_remediations check_remediation add_issue
check_remediations_passed [] r = refl
check_remediations_passed (m ∷ ms) r =
    check_remediations_passed ms (check_remediation m r) ∙ ground arith

pub check_remediations_claims :
    (ms : List RemediationRecommendation) (r : ValidationResult)
    → (check_remediations ms r).unsupported_claims ≡ r.unsupported_claims
unfolding check_remediations check_remediation add_issue
check_remediations_claims [] r = refl
check_remediations_claims (m ∷ ms) r =
    check_remediations_claims ms (check_remediation m r) ∙ ground arith

check_candidate_claims :
    (env : Env) (ids : List String) (c : RootCauseCandidate) (r : ValidationResult)
    → length (check_candidate env ids c r).unsupported_claims ≡ (
        if is_nil (valid_support ids c)
        then length r.unsupported_claims + 1
        else length r.unsupported_claims)
unfolding check_candidate add_issue
check_candidate_claims env ids c r = ground (
  arith,
  length-append r.unsupported_claims
      (concat ("Candidate '" ∷ c.root_cause_code ∷ "' has no valid supporting evidence" ∷ []) ∷ []),
)

pub check_support_claims :
    (env : Env) (ids : List String) (cs : List RootCauseCandidate) (r : ValidationResult)
    → length (check_support env ids cs r).unsupported_claims
      ≡ length r.unsupported_claims + length (keep (λ c. is_nil (valid_support ids c)) cs)
unfolding check_support
check_support_claims env ids [] r = omega arith
check_support_claims env ids (c ∷ cs) r = ground (
  arith,
  check_support_claims env ids cs (check_candidate env ids c r),
  check_candidate_claims env ids c r,
)
