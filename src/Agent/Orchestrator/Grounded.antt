-- ===== src/Agent/Orchestrator/Grounded.antt =====
-- The report of the deterministic client on a traced collection is grounded.
use lineageiq.Common.{
  ℕ, suc, zero, ◌≤◌, String, true, false, List, [], ◌∷◌, ◌++◌, map, All, has, length, ◌||◌, ◌≡◌,
  ◌≢◌, refl, sym, ◌∙◌, subst, arith, str_eq, eq_refl, eq_iff, any-append, ||-elim, distinct,
  ||-true_right, inl, inr, ◌⊎◌,
}
use lineageiq.Taxonomy.{RootCauseCode}
use lineageiq.Database.{Session}
use lineageiq.Environment.{Env}
use lineageiq.Agent.Types.{CollectedEvidence, InvestigationContext}
use lineageiq.Agent.Knowledge.{remediation_for}
use lineageiq.Agent.Llm.{report_of, confidence_for, cited_ids, collected_types}
use lineageiq.Agent.Validation.{claims_execution, confidence_threshold}
use lineageiq.Agent.Validation.Grounding.{IsStored, IsGrounded}
use lineageiq.Agent.Orchestrator.Trace.{IsTraced}

All-has : (P : String → Type 0) (e : String) (xs : List String) → All P xs → has e xs ≡ true → P e
All-has P e [] a h = cc
All-has P e (x ∷ xs) a h =
    ||-elim (str_eq e x) (has e xs) h (λ q. subst P (sym ((eq_iff e x).0 q)) a.0)
      (All-has P e xs a.1)

module _ (s : Session) (incident_id : String) where
  traced_id :
      (e : String) (cs : List CollectedEvidence)
      → All (IsTraced s incident_id) cs
      → e ≢ ""
      → has e (map (λ c. c.evidence_id) cs) ≡ true
      → IsStored s incident_id e
  traced_id e [] t n h = cc
  traced_id e (c ∷ cs) t n h =
      ||-elim (str_eq e c.evidence_id) _ h
        (λ q.
          let p = (eq_iff e c.evidence_id).0 q in
          elim t.0 [
            | inl (_, blank) ↦ absurd (n (p ∙ blank))
            | inr (_, stored) ↦ subst (IsStored s incident_id) (sym p) stored
          ])
        (traced_id e cs t.1 n)

  cited_id :
      (ctx : InvestigationContext) (e : String)
      → All (IsStored s incident_id) ctx.initial_evidence_ids
      → All (IsTraced s incident_id) ctx.collected
      → e ≢ ""
      → has e (cited_ids ctx) ≡ true
      → IsStored s incident_id e
  cited_id ctx e initial traced n h =
      ||-elim (has e ctx.initial_evidence_ids) (has e (map (λ c. c.evidence_id) ctx.collected))
        (sym (
            any-append (str_eq e) ctx.initial_evidence_ids (map (λ c. c.evidence_id) ctx.collected))
          ∙ h)
        (All-has (IsStored s incident_id) e ctx.initial_evidence_ids initial)
        (traced_id e ctx.collected traced n)

  -- Either an entry names a stored row, or all entries are errors.
  IsStored-or_errors :
      (cs : List CollectedEvidence)
      → All (IsTraced s incident_id) cs
      → ((e : String) × (has e (map (λ c. c.evidence_id) cs) ≡ true) × IsStored s incident_id e)
        ⊎ All (λ c. c.evidence_type ≡ "error") cs
  IsStored-or_errors [] t = inr tt
  IsStored-or_errors (c ∷ cs) t = elim t.0 [
    | inr (_, stored) ↦ inl (c.evidence_id, rw (eq_refl c.evidence_id), stored)
    | inl (error, _) ↦ elim (IsStored-or_errors cs t.1) [
      | inl (e, h, stored) ↦ inl (e, ||-true_right (str_eq e c.evidence_id) _ h, stored)
      | inr errors ↦ inr (error, errors)
    ]
  ]

length-distinct_same :
    (k : String) (xs : List String) → All (λ x. x ≡ k) xs → length (distinct xs) ≤ 1
length-distinct_same k [] h = omega arith
length-distinct_same k (x ∷ []) h = omega arith
length-distinct_same k (x ∷ y ∷ ys) h =
    ground (arith, eq_iff x y, h.0, h.1.0, length-distinct_same k (y ∷ ys) h.1)

All-types :
    (k : String) (cs : List CollectedEvidence)
    → All (λ c. c.evidence_type ≡ k) cs
    → All (λ x. x ≡ k) (map (λ c. c.evidence_type) cs)
All-types k [] h = tt
All-types k (c ∷ cs) h = (h.0, All-types k cs h.1)

unexecuted : (cause : RootCauseCode) → claims_execution (remediation_for cause).action ≡ false
unfolding claims_execution remediation_for
unexecuted RootCauseCode.stale_fx_rate = refl
unexecuted _ = refl

two_types : (n : ℕ) → confidence_threshold ≤ confidence_for n → 2 ≤ n
unfolding confidence_for
two_types zero h = absurd (omega arith)
two_types (suc zero) h = absurd (omega arith)
two_types (suc (suc n)) h = omega arith

has-append : (e : String) (xs ys : List String) → has e (xs ++ ys) ≡ (has e xs || has e ys)
has-append e xs ys = any-append (str_eq e) xs ys

has_twice :
    (e : String) (xs : List String) → has e (xs ++ (xs ++ ([] ++ []))) ≡ true → has e xs ≡ true
has_twice e xs h =
    ||-elim (has e xs) (has e (xs ++ [])) (sym (has-append e xs (xs ++ [])) ∙ h) (λ q. q)
      λ q. ||-elim (has e xs) false (sym (has-append e xs []) ∙ q) (λ r. r) (λ r. cc)

-- The report on a context whose first ids are stored, and whose collected entries are traced, is
-- grounded in the session.
pub report_of-IsGrounded :
    (env : Env) (s : Session) (ctx : InvestigationContext)
    → All (IsStored s ctx.incident_id) ctx.initial_evidence_ids
    → All (IsTraced s ctx.incident_id) ctx.collected
    → IsGrounded s (report_of env ctx)
unfolding report_of
report_of-IsGrounded env s ctx initial traced = record {
  cited =
      λ e h n. cited_id s ctx.incident_id ctx e initial traced n (has_twice e (cited_ids ctx) h);
  coded = ((ctx.suspected_root_cause, refl), tt);
  supported = (λ high. support (two_types (length (collected_types ctx.collected)) high), tt);
  unexecuted = ((refl, unexecuted ctx.suspected_root_cause), tt);
}
  where
    support :
        2 ≤ length (collected_types ctx.collected)
        → (e : String) × (has e (cited_ids ctx) ≡ true) × IsStored s ctx.incident_id e
    support two = elim (IsStored-or_errors s ctx.incident_id ctx.collected traced) [
      | inl (e, h, stored) ↦ (
        e,
        has-append e ctx.initial_evidence_ids (map (λ c. c.evidence_id) ctx.collected)
            ∙ ||-true_right (has e ctx.initial_evidence_ids) _ h,
        stored,
      )
      | inr errors ↦ absurd (
          omega (
            arith,
            length-distinct_same "error" (map (λ c. c.evidence_type) ctx.collected)
                (All-types "error" ctx.collected errors),
          ))
    ]
