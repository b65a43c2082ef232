-- ===== src/Agent/Validation/Support.antt =====
-- The codes, the support and the remediations that pass the checks of
-- backend/app/agent/validation.py.
use lineageiq.Common.{
  ℕ, ◌≤◌, String, Bool, true, false, not, ◌||◌, List, [], ◌∷◌, map, has, keep, is_nil, ltb, ◌≡◌,
  inl, inr, refl, ap, ◌∙◌, arith, str_eq, eq_iff, eq_refl, has-keep, Bool-cases, &&-both,
  ||-true_right,
}
use lineageiq.Taxonomy.{RootCauseCode, root_cause_value, all_root_causes}
use lineageiq.Agent.Types.{RootCauseCandidate, RemediationRecommendation}
use lineageiq.Agent.Validation.{known_code, valid_support, confidence_threshold, claims_execution}
use lineageiq.Agent.Validation.Checks.{support_ok, remediation_ok}

code_of_known :
    (s : String) (cs : List RootCauseCode)
    → has s (map root_cause_value cs) ≡ true
    → (k : RootCauseCode) × (s ≡ root_cause_value k)
code_of_known s [] h = cc
code_of_known s (c ∷ cs) h = elim (Bool-cases (str_eq s (root_cause_value c))) [
  | inl e ↦ (c, (eq_iff s (root_cause_value c)).0 e)
  | inr e ↦ code_of_known s cs (rw e at h)
]

known_code-root_cause_value : (k : RootCauseCode) → known_code (root_cause_value k) ≡ true
unfolding known_code
known_code-root_cause_value RootCauseCode.duplicate_transaction = refl
known_code-root_cause_value _ = refl

support_of_kept :
    (ids xs : List String)
    → is_nil (keep (λ e. has e ids) xs) ≡ false
    → (e : String) × (has e xs ≡ true) × (has e ids ≡ true)
support_of_kept ids [] h = cc
support_of_kept ids (x ∷ xs) h = elim (Bool-cases (has x ids)) [
  | inl e ↦ (x, ground (arith, eq_refl x), e)
  | inr e ↦ let (y, m, k) = support_of_kept ids xs (rw e at h) in (y, ground arith, k)
]

not_nil_of_ok :
    (nil : Bool) (confidence : ℕ)
    → (not nil || ltb confidence confidence_threshold) ≡ true
    → confidence_threshold ≤ confidence
    → nil ≡ false
not_nil_of_ok nil confidence h high = ground arith

kept_of_support :
    (kept : List String) (e : String)
    → has e kept ≡ true
    → (low : Bool) → (not (is_nil kept) || low) ≡ true
kept_of_support [] e h low = cc
kept_of_support (x ∷ xs) e h low = refl

pub support_of_ok :
    (ids : List String) (c : RootCauseCandidate)
    → support_ok ids c ≡ true
    → confidence_threshold ≤ c.confidence
    → (e : String) × (has e c.supporting_evidence_ids ≡ true) × (has e ids ≡ true)
support_of_ok ids c ok high =
    support_of_kept ids c.supporting_evidence_ids
      (not_nil_of_ok (is_nil (valid_support ids c)) c.confidence ok high)

pub ok_of_support :
    (ids : List String) (c : RootCauseCandidate)
    → (confidence_threshold ≤ c.confidence
        → (e : String) × (has e c.supporting_evidence_ids ≡ true) × (has e ids ≡ true))
    → support_ok ids c ≡ true
ok_of_support ids c h = elim (Bool-cases (ltb c.confidence confidence_threshold)) [
  | inl low ↦ ||-true_right (not (is_nil (valid_support ids c))) _ low
  | inr high ↦
      let (e, m, k) = h (ground arith) in
      kept_of_support (valid_support ids c) e
        (has-keep e (λ x. has x ids) c.supporting_evidence_ids ∙ &&-both _ _ k m)
        (ltb c.confidence confidence_threshold)
]

pub known_code-root_cause :
    (code : String) → known_code code ≡ true → (k : RootCauseCode) × (code ≡ root_cause_value k)
unfolding known_code
known_code-root_cause code h = code_of_known code all_root_causes h

pub known_code_of :
    (code : String) (k : RootCauseCode) → code ≡ root_cause_value k → known_code code ≡ true
known_code_of code k e = ap known_code e ∙ known_code-root_cause_value k

pub remediation_facts :
    (claimed approval : Bool)
    → not (claimed || not approval) ≡ true
    → (approval ≡ true) × (claimed ≡ false)
remediation_facts claimed approval h = ground arith

pub remediation_ok_of :
    (m : RemediationRecommendation)
    → (m.requires_approval ≡ true) × (claims_execution m.action ≡ false)
    → remediation_ok m ≡ true
remediation_ok_of m k = ground arith
