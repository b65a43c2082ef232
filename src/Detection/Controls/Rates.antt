-- ===== src/Detection/Controls/Rates.antt =====
-- `StaleFxRateDetector` of backend/app/detection/detectors.py.
use lineageiq.Common.{
  String, ◌&&◌, some, List, [], ◌∷◌, ◌++◌, concat, str_eq, leb, ◌==◌, if◌then◌else◌,
}
use lineageiq.Taxonomy.{RootCauseCode, Severity}
use lineageiq.Database.{Session, FxRate, text}
use lineageiq.Environment.{Env}
use lineageiq.Detection.Controls.{Draft}

abbrev pub RateGroup : Type 0
RateGroup = (String × String) × List FxRate

-- `by_pair[(r.source_currency, r.target_currency)].append(r)`
abbrev pub add_rate : FxRate → List RateGroup → List RateGroup
add_rate r [] = ((r.source_currency, r.target_currency), r ∷ []) ∷ []
add_rate r (g ∷ gs) =
    if str_eq g.0.0 r.source_currency && str_eq g.0.1 r.target_currency
    then (g.0, g.1 ++ r ∷ []) ∷ gs
    else g ∷ add_rate r gs

abbrev pub add_rates : List RateGroup → List FxRate → List RateGroup
add_rates gs [] = gs
add_rates gs (r ∷ rs) = add_rates (add_rate r gs) rs

-- `rates.sort(key=lambda x: x.rate_date)`, which keeps the order of equal dates
abbrev pub insert_rate : FxRate → List FxRate → List FxRate
insert_rate r [] = r ∷ []
insert_rate r (x ∷ xs) = if leb r.rate_date x.rate_date then r ∷ x ∷ xs else x ∷ insert_rate r xs

abbrev pub sort_rates : List FxRate → List FxRate
sort_rates [] = []
sort_rates (r ∷ rs) = insert_rate r (sort_rates rs)

abbrev stale_draft : Env → String × String → FxRate → FxRate → Draft
stale_draft env pair previous current detected_at = record {
  detector_name = "stale_fx_rate_control";
  entity_type = "fx_rate";
  entity_id = concat (env.isoformat current.rate_date ∷ ":" ∷ pair.0 ∷ ":" ∷ pair.1 ∷ []);
  metric_name = "fx_rate_drift";
  observed_value = some "0.0";
  expected_value = some ">0";
  anomaly_score = some 10_000;
  severity = Severity.high;
  suspected_root_cause = RootCauseCode.stale_fx_rate;
  detected_at = detected_at;
  metadata =
      ("currency", text pair.0)
      ∷ ("date", text (env.isoformat current.rate_date))
      ∷ ("reused_from", text (env.isoformat previous.rate_date))
      ∷ [];
}

-- The rates after the first that equal the one before, each with it.
unfoldable pub reused : List FxRate → List (FxRate × FxRate)
reused [] = []
reused (previous ∷ []) = []
reused (previous ∷ current ∷ rates) =
    let rest = reused (current ∷ rates) in
    if current.exchange_rate == previous.exchange_rate then (previous, current) ∷ rest else rest

abbrev drafts_of_pair : Env → String × String → List (FxRate × FxRate) → List Draft
drafts_of_pair env pair [] = []
drafts_of_pair env pair (e ∷ es) = stale_draft env pair e.0 e.1 ∷ drafts_of_pair env pair es

abbrev stale_drafts : Env → List RateGroup → List Draft
stale_drafts env [] = []
stale_drafts env (g ∷ gs) =
    if str_eq g.0.0 g.0.1
    then stale_drafts env gs
    else drafts_of_pair env g.0 (reused (sort_rates g.1)) ++ stale_drafts env gs

unfoldable pub stale_rates : Env → Session → List Draft
unfolding reused
stale_rates env s = stale_drafts env (add_rates [] s.fx_rates)
