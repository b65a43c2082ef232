-- ===== src/Detection/Controls/Days.antt =====
-- The controls of backend/app/detection/detectors.py that count by day: partial loads, and bursts
-- of errors. The median is doubled, so that it is a whole number.
mod Ranks
pub mod Medians
use lineageiq.Common.{
  ℕ, suc, ◌+◌, ◌*◌, ◌/◌, ◌-◌, ◌%◌, String, Bool, ◌&&◌, ◌||◌, none, some, List, [], ◌∷◌, map, keep,
  any, concat, length, get_elem?, show, str_eq, leb, ltb, ◌==◌, ◌≡◌, refl, arith, Bool-cases, inl,
  inr, if◌then◌else◌, subst, ==_iff,
}
use lineageiq.Taxonomy.{RootCauseCode, Severity}
use lineageiq.Database.{Session, text, int, date_of}
use lineageiq.Environment.{Env}
use lineageiq.Detection.Controls.{Draft}

-- `x in xs`
abbrev pub has_day : ℕ → List ℕ → Bool
has_day x xs = any (λ y. x == y) xs

abbrev pub count_day : ℕ → List ℕ → ℕ
count_day x [] = 0
count_day x (y ∷ ys) = if x == y then suc (count_day x ys) else count_day x ys

-- An ordered list of numbers, with the number at its place.
insert : ℕ → List ℕ → List ℕ
insert x [] = x ∷ []
insert x (y ∷ ys) = if leb x y then x ∷ y ∷ ys else y ∷ insert x ys

sorted : List ℕ → List ℕ
unfolding insert
sorted [] = []
sorted (x ∷ xs) = insert x (sorted xs)

-- `sorted(per_day)`: the distinct days, in order
unfoldable pub days_of : List ℕ → List ℕ
unfolding insert
days_of [] = []
days_of (x ∷ xs) = if has_day x xs then days_of xs else insert x (days_of xs)

elem_or_zero : List ℕ → ℕ → ℕ
elem_or_zero xs i = elim (get_elem? xs i) [ none ↦ 0 | some x ↦ x ]

-- Twice `statistics.median(xs)`
unfoldable pub median_twice : List ℕ → ℕ
unfolding sorted elem_or_zero
median_twice xs =
    let n = length xs in
    let ordered = sorted xs in
    if n % 2 == 1
    then 2 * elem_or_zero ordered (n / 2)
    else elem_or_zero ordered (n / 2 - 1) + elem_or_zero ordered (n / 2)

abbrev pub order_days : Session → List ℕ
order_days s = map (λ o. date_of o.order_timestamp) s.orders

-- `median(per_day.values())`, doubled
unfoldable pub daily_median_twice : Session → ℕ
unfolding days_of median_twice
daily_median_twice s = median_twice (map (λ d. count_day d (order_days s)) (days_of (order_days s)))

-- The days that are alerted: `count < 0.5 * med` is `4 * count < 2 * med`.
unfoldable pub short_days : Session → List ℕ
unfolding days_of daily_median_twice
short_days s =
    if ltb (length (days_of (order_days s))) 5
    then []
    else if daily_median_twice s == 0
    then []
    else keep (λ d. ltb (4 * count_day d (order_days s)) (daily_median_twice s))
        (days_of (order_days s))

abbrev partial_draft : Env → Session → ℕ → Draft
partial_draft env s d detected_at = record {
  detector_name = "partial_load_control";
  entity_type = "orders";
  entity_id = env.isoformat d;
  metric_name = "daily_order_count";
  observed_value = some (show (count_day d (order_days s)));
  expected_value = some (concat ("~" ∷ show (daily_median_twice s / 2) ∷ []));
  anomaly_score = some 9000;
  severity = Severity.high;
  suspected_root_cause = RootCauseCode.partial_load;
  detected_at = detected_at;
  metadata = ("date", text (env.isoformat d)) ∷ ("median", int (daily_median_twice s / 2)) ∷ [];
}

unfoldable pub partial_loads : Env → Session → List Draft
unfolding short_days
partial_loads env s = map (partial_draft env s) (short_days s)

abbrev pub error_keys : Session → List (String × ℕ)
error_keys s =
    map (λ l. (l.service, date_of l.timestamp))
      (keep (λ l. str_eq l.log_level "ERROR") s.system_logs)

-- `counts[key] += 1`
abbrev pub bump_key : String × ℕ → List ((String × ℕ) × ℕ) → List ((String × ℕ) × ℕ)
bump_key k [] = (k, 1) ∷ []
bump_key k (e ∷ t) =
    if str_eq e.0.0 k.0 && (e.0.1 == k.1) then (e.0, e.1 + 1) ∷ t else e ∷ bump_key k t

abbrev pub tally_keys : List ((String × ℕ) × ℕ) → List (String × ℕ) → List ((String × ℕ) × ℕ)
tally_keys t [] = t
tally_keys t (k ∷ ks) = tally_keys (bump_key k t) ks

abbrev burst_draft : Env → (String × ℕ) × ℕ → Draft
burst_draft env e detected_at = record {
  detector_name = "api_error_burst_control";
  entity_type = "system_logs";
  entity_id = concat (e.0.0 ∷ ":" ∷ env.isoformat e.0.1 ∷ []);
  metric_name = "error_log_count";
  observed_value = some (show e.1);
  expected_value = some "<10";
  anomaly_score = some 9000;
  severity = Severity.high;
  suspected_root_cause = RootCauseCode.upstream_api_failure;
  detected_at = detected_at;
  metadata =
      ("service", text e.0.0) ∷ ("date", text (env.isoformat e.0.1)) ∷ ("count", int e.1) ∷ [];
}

-- The services and days with ten errors or more, and their numbers.
unfoldable pub burst_keys : Session → List ((String × ℕ) × ℕ)
burst_keys s = keep (λ e. leb 10 e.1) (tally_keys [] (error_keys s))

unfoldable pub error_bursts : Env → Session → List Draft
unfolding burst_keys
error_bursts env s = map (burst_draft env) (burst_keys s)

has_day-insert : (d x : ℕ) (xs : List ℕ) → has_day d (insert x xs) ≡ ((d == x) || has_day d xs)
unfolding insert
has_day-insert d x [] = refl
has_day-insert d x (y ∷ ys) = ground (arith, has_day-insert d x ys)

pub has_day-days_of : (d : ℕ) (xs : List ℕ) → has_day d (days_of xs) ≡ has_day d xs
unfolding days_of
has_day-days_of d [] = refl
has_day-days_of d (x ∷ xs) =
    ground (arith, has_day-days_of d xs, has_day-days_of x xs, has_day-insert d x (days_of xs))

pub has_day-keep :
    (d : ℕ) (p : ℕ → Bool) (xs : List ℕ) → has_day d (keep p xs) ≡ (p d && has_day d xs)
has_day-keep d p [] = ground arith
has_day-keep d p (x ∷ xs) = elim (Bool-cases (d == x)) [
  | inl e ↦
      subst (λ x. has_day d (keep p (x ∷ xs)) ≡ (p d && has_day d (x ∷ xs))) ((==_iff d x).0 e)
        (ground (arith, has_day-keep d p xs))
  | inr e ↦ ground (arith, has_day-keep d p xs)
]
