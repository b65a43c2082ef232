-- ===== src/Agent/Validation.antt =====
-- backend/app/agent/validation.py: the checks that a report's claims rest on stored evidence.
mod Checks
mod Support
pub mod Grounding
pub mod Claims
mod Tests
use lineageiq.Common.{
  ℕ, suc, String, Bool, true, false, not, ◌&&◌, ◌||◌, Option, none, some, List, [], ◌∷◌, ◌++◌, map,
  concat, list_text, distinct, sort_texts, has, is_nil, keep, any, length, str_eq, lower_contains,
  leb, ltb, show, if◌then◌else◌,
}
use lineageiq.Taxonomy.{all_root_causes, root_cause_value}
use lineageiq.Database.{Session, Evidence}
use lineageiq.Environment.{Env}
use lineageiq.Agent.Types.{InvestigationReport, RootCauseCandidate, RemediationRecommendation}

abbrev pub executed_words : List String
executed_words =
    "executed" ∷ "applied" ∷ "performed" ∷ "completed the" ∷ "has been fixed" ∷ "resolved" ∷ []

-- `_VALID_CODES`
abbrev pub valid_codes : List String
valid_codes = map root_cause_value all_root_causes

-- `_CONFIDENCE_THRESHOLD`, 0.65
abbrev pub confidence_threshold : ℕ
confidence_threshold = 6500

pub record ValidationIssue : Type 0 where
  pub code : String
  pub message : String
  pub severity : String

pub record ValidationResult : Type 0 where
  pub passed : Bool
  pub issues : List ValidationIssue
  pub unsupported_claims : List String

abbrev pub empty_result : ValidationResult
empty_result = record { passed = true; issues = []; unsupported_claims = [] }

-- `ValidationResult.add`
add_issue : String → String → String → ValidationResult → ValidationResult
add_issue code message severity r = record {
  passed = if str_eq severity "error" then false else r.passed;
  issues = r.issues ++ record { code = code; message = message; severity = severity } ∷ [];
  unsupported_claims = r.unsupported_claims;
}

-- The evidence rows of the report's incident.
abbrev pub evidence_of : String → Session → List Evidence
evidence_of incident_id s = keep (λ e. str_eq e.incident_id incident_id) s.evidence

abbrev pub evidence_ids_of : List Evidence → List String
evidence_ids_of rows = map (λ e. e.evidence_id) rows

-- `evidence_rows[e].evidence_type`, in a dict whose later rows replace earlier ones
type_in : String → Option String → List Evidence → Option String
type_in id found [] = found
type_in id found (e ∷ rows) =
    type_in id (if str_eq e.evidence_id id then some e.evidence_type else found) rows

abbrev pub candidate_citations : List RootCauseCandidate → List String
candidate_citations [] = []
candidate_citations (c ∷ cs) =
    c.supporting_evidence_ids ++ (c.contradictory_evidence_ids ++ candidate_citations cs)

-- Every evidence id that the report cites.
abbrev pub citations : InvestigationReport → List String
citations r = r.evidence_ids ++ candidate_citations r.root_cause_candidates

-- 1. The cited ids that do not exist or do not belong to this incident.
abbrev pub invalid_citations : List String → InvestigationReport → List String
invalid_citations valid_ids report =
    sort_texts
      (keep (λ e. not (str_eq e "") && not (has e valid_ids)) (distinct (citations report)))

pub check_citations : List String → InvestigationReport → ValidationResult → ValidationResult
check_citations valid_ids report r =
    let invalid = invalid_citations valid_ids report in
    if is_nil invalid
    then r
    else add_issue "invalid_evidence_id"
        (concat ("Report cites evidence not belonging to the incident: " ∷ list_text invalid ∷ []))
        "error" r

-- 2. Root-cause codes must be in the taxonomy.
-- `code in _VALID_CODES`
unfoldable pub known_code : String → Bool
known_code code = has code valid_codes

pub check_code : RootCauseCandidate → ValidationResult → ValidationResult
check_code c r =
    if known_code c.root_cause_code
    then r
    else add_issue "unknown_root_cause_code"
        (concat ("Root-cause code not in taxonomy: " ∷ c.root_cause_code ∷ [])) "error" r

pub check_codes : List RootCauseCandidate → ValidationResult → ValidationResult
check_codes [] r = r
check_codes (c ∷ cs) r = check_codes cs (check_code c r)

abbrev pub valid_support : List String → RootCauseCandidate → List String
valid_support valid_ids c = keep (λ e. has e valid_ids) c.supporting_evidence_ids

claim_unsupported : RootCauseCandidate → ValidationResult → ValidationResult
claim_unsupported c r = record r {
  unsupported_claims =
      r.unsupported_claims
      ++ concat ("Candidate '" ∷ c.root_cause_code ∷ "' has no valid supporting evidence" ∷ [])
        ∷ [];
}

-- 3. The body of the loop over candidates without supporting evidence.
pub check_candidate : Env → List String → RootCauseCandidate → ValidationResult → ValidationResult
unfolding claim_unsupported
check_candidate env valid_ids c r =
    if is_nil (valid_support valid_ids c)
    then (if leb confidence_threshold c.confidence
        then add_issue "unsupported_high_confidence"
            (concat (
              "Candidate '"
              ∷ c.root_cause_code
              ∷ "' has high confidence "
              ∷ "("
              ∷ env.fixed2 c.confidence
              ∷ ") with no supporting evidence"
              ∷ []))
            "error" (claim_unsupported c r)
        else claim_unsupported c r)
    else r

pub check_support :
    Env → List String → List RootCauseCandidate → ValidationResult → ValidationResult
check_support env valid_ids [] r = r
check_support env valid_ids (c ∷ cs) r =
    check_support env valid_ids cs (check_candidate env valid_ids c r)

source_types : List Evidence → List String → List String
unfolding type_in
source_types rows [] = []
source_types rows (e ∷ es) = elim (type_in e none rows) [
  | none ↦ source_types rows es
  | some t ↦ t ∷ source_types rows es
]

-- The independent evidence types behind a candidate.
unfoldable pub distinct_sources : List Evidence → RootCauseCandidate → ℕ
unfolding source_types
distinct_sources rows c = length (distinct (source_types rows c.supporting_evidence_ids))

-- 4. A confident leading candidate should have two independent sources: a warning.
pub check_coverage :
    Env → List Evidence → List RootCauseCandidate → ValidationResult → ValidationResult
unfolding distinct_sources
check_coverage env rows [] r = r
check_coverage env rows (leading ∷ cs) r =
    let sources = distinct_sources rows leading in
    if leb confidence_threshold leading.confidence && ltb sources 2
    then add_issue "confidence_exceeds_evidence"
        (concat (
          "Leading confidence "
          ∷ env.fixed2 leading.confidence
          ∷ " but only "
          ∷ show sources
          ∷ " independent evidence source(s)"
          ∷ []))
        "warning" r
    else r

-- `any(w in text for w in _EXECUTED_WORDS)` on the lower-cased action
unfoldable pub claims_execution : String → Bool
unfolding lower_contains
claims_execution action = any (λ w. lower_contains w action) executed_words

-- 5. No remediation may be claimed as already executed.
pub check_remediation : RemediationRecommendation → ValidationResult → ValidationResult
check_remediation m r =
    if claims_execution m.action || not m.requires_approval
    then add_issue "remediation_claimed_executed"
        (concat
          ("Remediation must require approval and not claim execution: '" ∷ m.action ∷ "'" ∷ []))
        "error" r
    else r

pub check_remediations : List RemediationRecommendation → ValidationResult → ValidationResult
check_remediations [] r = r
check_remediations (m ∷ ms) r = check_remediations ms (check_remediation m r)

unfoldable pub validate_report : Env → Session → InvestigationReport → ValidationResult
unfolding check_citations check_code check_codes check_candidate check_support check_coverage
    check_remediation check_remediations add_issue claims_execution known_code
validate_report env s report =
    let rows = evidence_of report.incident_id s in
    let candidates = report.root_cause_candidates in
    check_remediations report.remediation_recommendations (
      check_coverage env rows candidates (
        check_support env (evidence_ids_of rows) candidates
          (check_codes candidates (check_citations (evidence_ids_of rows) report empty_result))))
