-- ===== src/Incidents/Injected/Outages.antt =====
-- The errors that `UpstreamApiFailureInjector` logs are found by `ApiErrorBurstDetector`.
use lineageiq.Common.{
  ℕ, zero, suc, ◌+◌, ◌*◌, ◌≤◌, ◌<◌, ◌==◌, ◌&&◌, Bool, true, String, str_eq, eq_iff, eq_refl, ==_iff,
  leb, &&-left, &&-right, List, [], ◌∷◌, ◌++◌, map, keep, any, ◌≡◌, refl, sym, ap, arith,
  Bool-cases, inl, inr, le→leb, if◌then◌else◌,
}
use lineageiq.Effects.{ok}
use lineageiq.Database.{Session, SystemLog, date_of}
use lineageiq.Environment.{Env}
use lineageiq.Detection.Controls.Days.{burst_keys, error_keys, tally_keys, bump_key}
use lineageiq.Incidents.{IncidentManifest}
use lineageiq.Incidents.Injectors.{utc}
use lineageiq.Incidents.Injectors.Params.{date_param, int_param}
use lineageiq.Incidents.Injectors.Outages.{apply_outage, fail_provider, error_logs}

abbrev pub ServiceDay : Type 0
ServiceDay = String × ℕ

abbrev pub same_service : ServiceDay → ServiceDay → Bool
same_service a b = str_eq a.0 b.0 && (a.1 == b.1)

abbrev count_service : ServiceDay → List ServiceDay → ℕ
count_service k [] = 0
count_service k (l ∷ ls) = if same_service l k then suc (count_service k ls) else count_service k ls

abbrev found_count : ServiceDay → List (ServiceDay × ℕ) → ℕ
found_count k [] = 0
found_count k (e ∷ t) = if same_service e.0 k then e.1 else found_count k t

same_service→eq : (a b : ServiceDay) → same_service a b ≡ true → a ≡ b
same_service→eq (s, d) (t, e) h =
    let service : s ≡ t = (eq_iff s t).0 (&&-left (str_eq s t) (d == e) h) in
    let day : d ≡ e = (==_iff d e).0 (&&-right (str_eq s t) (d == e) h) in cc

same_service_refl : (a : ServiceDay) → same_service a a ≡ true
same_service_refl (s, d) = ground (arith, eq_refl s)

found_count-bump_key :
    (k l : ServiceDay) (t : List (ServiceDay × ℕ))
    → found_count k (bump_key l t)
      ≡ (if same_service l k then suc (found_count k t) else found_count k t)
found_count-bump_key k l [] = ground arith
found_count-bump_key k l (e ∷ t) =
    let rest = found_count-bump_key k l t in
    elim (Bool-cases (same_service e.0 l)) [
      | inl q ↦
          rw (q, ap (λ a. same_service a k) (same_service→eq e.0 l q))
            (elim (Bool-cases (same_service l k)) [
              | inl r ↦ rw r (omega arith)
              | inr r ↦ rw r refl
            ])
      | inr q ↦ elim (Bool-cases (same_service l k)) [
        | inl r ↦
            rw (q, r, sym (ap (λ a. same_service e.0 a) (same_service→eq l k r)), q) (rw r at rest)
        | inr r ↦ rw (q, r) (ground (arith, rw r at rest))
      ]
    ]

-- An entry of ten or more is kept.
any-found_count :
    (k : ServiceDay) (t : List (ServiceDay × ℕ))
    → 10 ≤ found_count k t
    → any (λ e. same_service e.0 k) (keep (λ e. leb 10 e.1) t) ≡ true
any-found_count k [] h = absurd (omega (arith, h))
any-found_count k (e ∷ t) h = elim (Bool-cases (same_service e.0 k)) [
  | inl q ↦ let enough : leb 10 e.1 ≡ true = le→leb 10 e.1 (rw q at h) in rw (enough, q) refl
  | inr q ↦
      let rest = any-found_count k t (rw q at h) in
      elim (Bool-cases (leb 10 e.1)) [ inl n ↦ rw (n, q) rest | inr n ↦ rw n rest ]
]

found_count-tally_keys :
    (k : ServiceDay) (t : List (ServiceDay × ℕ)) (ks : List ServiceDay)
    → found_count k (tally_keys t ks) ≡ found_count k t + count_service k ks
found_count-tally_keys k t [] = omega arith
found_count-tally_keys k t (l ∷ ks) =
    ground (arith, found_count-tally_keys k (bump_key l t) ks, found_count-bump_key k l t)

-- A service and day with ten errors or more is alerted.
pub burst_keys-count :
    (s : Session) (k : ServiceDay)
    → 10 ≤ count_service k (error_keys s)
    → any (λ e. same_service e.0 k) (burst_keys s) ≡ true
unfolding burst_keys
burst_keys-count s k h =
    any-found_count k (tally_keys [] (error_keys s))
      (omega (arith, h, found_count-tally_keys k [] (error_keys s)))

abbrev keys_of_errors : List SystemLog → List ServiceDay
keys_of_errors logs =
    map (λ l. (l.service, date_of l.timestamp)) (keep (λ l. str_eq l.log_level "ERROR") logs)

count_service-append :
    (k : ServiceDay) (xs ys : List SystemLog)
    → count_service k (keys_of_errors (xs ++ ys))
      ≡ count_service k (keys_of_errors xs) + count_service k (keys_of_errors ys)
count_service-append k [] ys = omega arith
count_service-append k (x ∷ xs) ys = elim (Bool-cases (str_eq x.log_level "ERROR")) [
  | inl e ↦ rw e (ground (arith, count_service-append k xs ys))
  | inr e ↦ rw e (count_service-append k xs ys)
]

-- A minute after three o'clock, before midnight.
same_day : (d i : ℕ) → i < 1260 → date_of (utc d 3 + i * 60_000_000) ≡ d
same_day d i h = omega arith

count_service-error_logs :
    (manifest_id : String) (d i n : ℕ)
    → i + n ≤ 1260
    → count_service ("payment_provider_api", d) (keys_of_errors (error_logs manifest_id d i n)) ≡ n
count_service-error_logs manifest_id d i zero h = refl
count_service-error_logs manifest_id d i (suc n) h =
    rw (same_day d i (omega (arith, h)), same_service_refl ("payment_provider_api", d))
      (omega (arith, count_service-error_logs manifest_id d (i + 1) n (omega (arith, h))))

-- When the manifest names a date and a number of errors, from 10 to 1260, which stay within the day,
-- the control reports the payment provider on that day after the injection.
pub apply_outage-burst :
    (env : Env) (manifest : IncidentManifest) (s : Session) (d n : ℕ)
    → date_param env "date" manifest.params ≡ ok d
    → int_param env "error_count" manifest.params ≡ ok n
    → 10 ≤ n
    → n ≤ 1260
    → any
        (λ e. same_service e.0 ("payment_provider_api", d))
        (burst_keys (apply_outage env manifest s).1)
      ≡ true
unfolding apply_outage
apply_outage-burst env manifest s d n e f low high =
    let logs = error_logs manifest.manifest_id d 0 n in
    let key : ServiceDay = ("payment_provider_api", d) in
    rw (e, f)
      (burst_keys-count (fail_provider manifest.manifest_id d n s) key (
        omega (
          arith,
          low,
          count_service-append key s.system_logs logs,
          count_service-error_logs manifest.manifest_id d 0 n (omega (arith, high)),
        )))
