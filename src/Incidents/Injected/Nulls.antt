-- ===== src/Incidents/Injected/Nulls.antt =====
-- The records without an amount that `NullContaminationInjector` stages are counted by
-- `NullContaminationDetector`.
use lineageiq.Common.{
  ℕ, zero, suc, ◌+◌, String, List, [], ◌∷◌, ◌++◌, map, count, tally_of, tally_of-counter, ◌≡◌, refl,
  ap, arith, concat, Option-cases, Bool-cases, inl, inr,
}
use lineageiq.Effects.{ok}
use lineageiq.Database.{Session, StagingRecord, payload_get}
use lineageiq.Environment.{Env}
use lineageiq.Detection.Controls.{null_counts, null_fields, required_field, is_none}
use lineageiq.Incidents.{IncidentManifest}
use lineageiq.Incidents.Injectors.Params.{date_param, int_param}
use lineageiq.Incidents.Injectors.Nulls.{apply_null, null_records}
use lineageiq.Incidents.Injected.Duplicates.{count-append}

null_fields-append :
    (rs ts : List StagingRecord) → null_fields (rs ++ ts) ≡ null_fields rs ++ null_fields ts
null_fields-append [] ts = refl
null_fields-append (r ∷ rs) ts = elim (Option-cases (required_field r.entity_type)) [
  | inl n ↦ rw (n, null_fields) (null_fields-append rs ts)
  | inr (field, f) ↦ elim (Bool-cases (is_none (payload_get field r.payload))) [
    | inl e ↦
        rw (f, e, null_fields)
          (ap (λ fs. concat (r.entity_type ∷ "." ∷ field ∷ []) ∷ fs) (null_fields-append rs ts))
    | inr e ↦ rw (f, e, null_fields) (null_fields-append rs ts)
  ]
]

count-null_records :
    (env : Env) (manifest_id : String) (d i n : ℕ)
    → count "order.gross_amount" (null_fields (null_records env manifest_id d i n)) ≡ n
count-null_records env manifest_id d i zero = refl
count-null_records env manifest_id d i (suc n) =
    omega (arith, count-null_records env manifest_id d (i + 1) n)

-- When the manifest names a date and a number n, the injection succeeds, and the control then
-- counts n more null amounts of orders than before.
pub apply_null-counted :
    (env : Env) (manifest : IncidentManifest) (s : Session) (d n : ℕ)
    → date_param env "date" manifest.params ≡ ok d
    → int_param env "count" manifest.params ≡ ok n
    → ((apply_null env manifest s).0
        ≡ ok (map (λ r. r.staging_id) (null_records env manifest.manifest_id d 0 n)))
      × (tally_of "order.gross_amount" (null_counts (apply_null env manifest s).1)
          ≡ tally_of "order.gross_amount" (null_counts s) + n)
unfolding apply_null
apply_null-counted env manifest s d n e f =
    let rows = null_records env manifest.manifest_id d 0 n in
    rw (e, f)
      (
        refl,
        omega (
          arith,
          tally_of-counter "order.gross_amount" (null_fields (s.staging_records ++ rows)),
          tally_of-counter "order.gross_amount" (null_fields s.staging_records),
          ap (count "order.gross_amount") (null_fields-append s.staging_records rows),
          count-append "order.gross_amount" (null_fields s.staging_records) (null_fields rows),
          count-null_records env manifest.manifest_id d 0 n,
        ),
      )
