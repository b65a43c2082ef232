-- ===== src/Agent/Validation/Grounding.antt =====
-- What a report must satisfy to pass `validate_report`, and when a claim is listed as unsupported.
use lineageiq.Common.{
  ◌≤◌, String, Bool, true, false, not, ◌&&◌, List, [], ◌∷◌, All, all, any, has, keep, is_nil, ◌≡◌,
  ◌≢◌, ◌↔◌, refl, sym, ap, ◌∙◌, arith, str_eq, eq_iff, distinct, has-distinct, has-sort_texts,
  has-keep, is_nil-has, is_nil_of_has, All-of_all, all_of_All, &&-left, &&-right, &&-both,
}
use lineageiq.Taxonomy.{RootCauseCode, root_cause_value}
use lineageiq.Database.{Session, Evidence}
use lineageiq.Environment.{Env}
use lineageiq.Agent.Types.{InvestigationReport}
use lineageiq.Agent.Validation.{
  validate_report, citations, invalid_citations, evidence_of, evidence_ids_of, confidence_threshold,
  claims_execution, empty_result, check_citations, check_codes, check_support, check_coverage,
}
use lineageiq.Agent.Validation.Checks.{
  code_ok, support_ok, remediation_ok, check_citations_passed, check_codes_passed,
  check_support_passed, check_coverage_passed, check_remediations_passed,
}
use lineageiq.Agent.Validation.Support.{
  support_of_ok, ok_of_support, known_code-root_cause, known_code_of, remediation_facts,
  remediation_ok_of,
}

-- An evidence row of the incident with this id is stored.
abbrev pub IsStored : Session → String → String → Type 0
IsStored s incident_id e =
    any (λ row. str_eq row.incident_id incident_id && str_eq e row.evidence_id) s.evidence ≡ true

has-evidence_ids_of :
    (incident_id e : String) (rows : List Evidence)
    → has e (evidence_ids_of (keep (λ row. str_eq row.incident_id incident_id) rows))
      ≡ any (λ row. str_eq row.incident_id incident_id && str_eq e row.evidence_id) rows
has-evidence_ids_of incident_id e [] = refl
has-evidence_ids_of incident_id e (row ∷ rows) =
    ground (arith, has-evidence_ids_of incident_id e rows)

pub record IsGrounded (s : Session) (report : InvestigationReport) : Type 0 where
  pub cited :
      (e : String) → has e (citations report) ≡ true → e ≢ "" → IsStored s report.incident_id e
  pub coded :
      All
        (λ c. (k : RootCauseCode) × (c.root_cause_code ≡ root_cause_value k))
        report.root_cause_candidates
  pub supported :
      All
        (λ c.
          confidence_threshold ≤ c.confidence
          → (e : String) × (has e c.supporting_evidence_ids ≡ true)
            × IsStored s report.incident_id e)
        report.root_cause_candidates
  pub unexecuted :
      All
        (λ m. (m.requires_approval ≡ true) × (claims_execution m.action ≡ false))
        report.remediation_recommendations

-- `passed` is the conjunction of the four checks that record errors.
pub validate_report_passed :
    (env : Env) (s : Session) (report : InvestigationReport)
    → (validate_report env s report).passed ≡ (
        all remediation_ok report.remediation_recommendations
        && (all
              (support_ok (evidence_ids_of (evidence_of report.incident_id s)))
              report.root_cause_candidates
            && (all code_ok report.root_cause_candidates
                && is_nil (
                    invalid_citations
                      (evidence_ids_of (evidence_of report.incident_id s))
                      report))))
validate_report_passed env s report =
    let rows = evidence_of report.incident_id s in
    let ids = evidence_ids_of rows in
    let cs = report.root_cause_candidates in
    let r₁ = check_citations ids report empty_result in
    let r₂ = check_codes cs r₁ in
    let r₃ = check_support env ids cs r₂ in
    let r₄ = check_coverage env rows cs r₃ in
    unfold validate_report in
    ground (
      arith,
      check_remediations_passed report.remediation_recommendations r₄,
      check_coverage_passed r₃ env rows cs,
      check_support_passed env ids cs r₂,
      check_codes_passed cs r₁,
      check_citations_passed empty_result ids report,
    )

known_of_not_invalid :
    (known blank cited : Bool)
    → ((not blank && not known) && cited) ≡ false
    → cited ≡ true
    → ¬ (blank ≡ true)
    → known ≡ true
known_of_not_invalid known blank cited h c n = ground arith

not_invalid_of :
    (known blank cited : Bool)
    → (cited ≡ true → blank ≡ false → known ≡ true)
    → ((not blank && not known) && cited) ≡ false
not_invalid_of true blank cited h = ground arith
not_invalid_of false true cited h = ground arith
not_invalid_of false false true h = sym (h refl refl)
not_invalid_of false false false h = refl

module _ (ids : List String) (report : InvestigationReport) where
  has-invalid_citations :
      (e : String)
      → has e (invalid_citations ids report)
        ≡ ((not (str_eq e "") && not (has e ids)) && has e (citations report))
  has-invalid_citations e =
      has-sort_texts e
        (keep (λ e. not (str_eq e "") && not (has e ids)) (distinct (citations report)))
      ∙ has-keep e (λ e. not (str_eq e "") && not (has e ids)) (distinct (citations report))
      ∙ ap (λ b. (not (str_eq e "") && not (has e ids)) && b) (has-distinct e (citations report))

  cited_of_valid :
      is_nil (invalid_citations ids report) ≡ true
      → (e : String) → has e (citations report) ≡ true
      → e ≢ ""
      → has e ids ≡ true
  cited_of_valid h e cited named =
      known_of_not_invalid (has e ids) (str_eq e "") (has e (citations report))
        (sym (has-invalid_citations e) ∙ is_nil-has (invalid_citations ids report) e h) cited
        (λ q. named ((eq_iff e "").0 q))

  valid_of_cited :
      ((e : String) → has e (citations report) ≡ true → e ≢ "" → has e ids ≡ true)
      → is_nil (invalid_citations ids report) ≡ true
  valid_of_cited h = is_nil_of_has (invalid_citations ids report) λ e.
      has-invalid_citations e
      ∙ not_invalid_of (has e ids) (str_eq e "") (has e (citations report))
          λ c q. h e c (λ p. cc (q, (eq_iff e "").1 p))

module _ (s : Session) (report : InvestigationReport) where
  abbrev ids : List String
  ids = evidence_ids_of (evidence_of report.incident_id s)

  stored : (e : String) → has e ids ≡ true → IsStored s report.incident_id e
  stored e h = sym (has-evidence_ids_of report.incident_id e s.evidence) ∙ h

  unstored : (e : String) → IsStored s report.incident_id e → has e ids ≡ true
  unstored e h = has-evidence_ids_of report.incident_id e s.evidence ∙ h

  abbrev remedies : Bool
  remedies = all remediation_ok report.remediation_recommendations

  abbrev supports : Bool
  supports = all (support_ok ids) report.root_cause_candidates

  abbrev codes : Bool
  codes = all code_ok report.root_cause_candidates

  abbrev uncited : Bool
  uncited = is_nil (invalid_citations ids report)

  IsGrounded-of_passed : (remedies && (supports && (codes && uncited))) ≡ true → IsGrounded s report
  IsGrounded-of_passed h =
      let rest = &&-right remedies (supports && (codes && uncited)) h in
      let rest' = &&-right supports (codes && uncited) rest in
      record {
        cited = λ e m n. stored e (cited_of_valid ids report (&&-right codes uncited rest') e m n);
        coded =
            All-of_all code_ok _ report.root_cause_candidates
              (λ c k. known_code-root_cause c.root_cause_code k) (&&-left codes uncited rest');
        supported =
            All-of_all (support_ok ids) _ report.root_cause_candidates
              (λ c k high. let (e, m, v) = support_of_ok ids c k high in (e, m, stored e v))
              (&&-left supports (codes && uncited) rest);
        unexecuted =
            All-of_all remediation_ok _ report.remediation_recommendations
              (λ m k. remediation_facts (claims_execution m.action) m.requires_approval k)
              (&&-left remedies (supports && (codes && uncited)) h);
      }

  passed_of_grounded : IsGrounded s report → (remedies && (supports && (codes && uncited))) ≡ true
  passed_of_grounded g =
      &&-both remedies (supports && (codes && uncited))
        (all_of_All remediation_ok _ report.remediation_recommendations
          (λ m k. remediation_ok_of m k) g.unexecuted)
        (&&-both supports (codes && uncited)
          (all_of_All (support_ok ids) _ report.root_cause_candidates
            (λ c k. ok_of_support ids c (λ high. let (e, m, v) = k high in (e, m, unstored e v)))
            g.supported)
          (&&-both codes uncited
            (all_of_All code_ok _ report.root_cause_candidates
              (λ c k. known_code_of c.root_cause_code k.0 k.1) g.coded)
            (valid_of_cited ids report (λ e m n. unstored e (g.cited e m n)))))

-- A report passes validation exactly when it is grounded: every non-empty id that it cites is
-- stored for its incident, every candidate's code is in the taxonomy, every candidate of
-- confidence 0.65 or more cites stored evidence of the incident, and every remediation requires
-- approval and does not claim that it was executed.
pub validate_report-IsGrounded :
    (env : Env) (s : Session) (report : InvestigationReport)
    → ((validate_report env s report).passed ≡ true) ↔ IsGrounded s report
validate_report-IsGrounded env s report = (
  λ h. IsGrounded-of_passed s report (sym (validate_report_passed env s report) ∙ h),
  λ g. validate_report_passed env s report ∙ passed_of_grounded s report g,
)
