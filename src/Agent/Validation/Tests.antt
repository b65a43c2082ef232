-- ===== src/Agent/Validation/Tests.antt =====
-- The validation of a small report.
use lineageiq.Common.{◌≡◌, ◌↔◌, true, length, keep, is_nil}
use lineageiq.Agent.Llm.{report_of}
use lineageiq.Agent.Context.{context_of}
use lineageiq.Agent.Validation.Claims.{length-unsupported_claims}
use lineageiq.Agent.Samples.{small_env, small_session, first_report}
use lineageiq.Agent.Validation.{validate_report, valid_support, evidence_ids_of, evidence_of}
use lineageiq.Agent.Validation.Grounding.{IsGrounded, validate_report-IsGrounded}

validate_report-IsGrounded_example :
    ((validate_report small_env small_session first_report).passed ≡ true)
    ↔ IsGrounded small_session first_report
validate_report-IsGrounded_example = validate_report-IsGrounded small_env small_session first_report

length-unsupported_claims_example :
    length (validate_report small_env small_session first_report).unsupported_claims
    ≡ length (
        keep
          (λ c. is_nil (valid_support (evidence_ids_of (evidence_of "INC-1" small_session)) c))
          first_report.root_cause_candidates)
unfolding report_of context_of
length-unsupported_claims_example = length-unsupported_claims small_env small_session first_report
