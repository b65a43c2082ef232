-- ===== src/Detection/Controls/Tests.antt =====
-- The controls on a small session.
use lineageiq.Common.{
  ℕ, pos, negsuc, not, keep, true, [], ◌∷◌, map, has, count, leb, ◌&&◌, ◌*◌, length, String, ◌≡◌,
  ◌↔◌, refl,
}
use lineageiq.Database.{Session, Payment, Order}
use lineageiq.Agent.Samples.{small_session}
use lineageiq.Detection.Controls.{repeated_keys, payment_keys}
use lineageiq.Detection.Controls.Duplicates.{repeated_keys-count}
use lineageiq.Detection.Controls.Days.{has_day, short_days, days_of, order_days, daily_median_twice}
use lineageiq.Detection.Controls.Days.Medians.{IsDaysOf, IsShort, has_day-short_days}
use lineageiq.Agent.Samples.{small_env}
use lineageiq.Detection.Samples.{trade_session, trade_world}
use lineageiq.Detection.Reconcile.{report_key, load_reports}
use lineageiq.Detection.Reconcile.Totals.{totals_of}
use lineageiq.Detection.Reconcile.Errors.{lacks_rates}
use lineageiq.Simulator.Fx.{done, is_failed}
use lineageiq.Detection.Controls.Runs.{unreported_days, has_day-unreported_days}
use lineageiq.Detection.Controls.Revenue.{
  is_mismatch, mismatch_draft, revenue_mismatches, revenue_mismatches-is_mismatch,
}
use lineageiq.Detection.Controls.Suite.{run_all_detectors, run_all_detectors-is_failed}
use lineageiq.Detection.Controls.Shifts.{is_shift}
use lineageiq.Detection.Controls.Rates.{reused, sort_rates}

abbrev payment_of : String → String → Payment
payment_of payment_id key = record {
  payment_id = payment_id;
  order_id = "O-1";
  customer_id = "C-1";
  payment_timestamp = 0;
  payment_currency = "USD";
  payment_amount = pos 100;
  payment_status = "successful";
  payment_provider = "provider";
  idempotency_key = key;
  updated_at = 0;
}

abbrev order_on : ℕ → Order
order_on day = record {
  order_id = "O-1";
  customer_id = "C-1";
  order_timestamp = day * 86_400_000_000;
  order_currency = "USD";
  gross_amount = pos 100;
  net_amount = pos 100;
  tax_amount = pos 0;
  order_status = "completed";
  source_system = "shop";
  updated_at = 0;
}

-- Three payments, two of one key; three orders on each of four days, and one on the last.
abbrev busy_session : Session
busy_session = record small_session {
  payments = payment_of "P-1" "k1" ∷ payment_of "P-2" "k2" ∷ payment_of "P-3" "k1" ∷ [];
  orders = map order_on (1 ∷ 1 ∷ 1 ∷ 2 ∷ 2 ∷ 2 ∷ 3 ∷ 3 ∷ 3 ∷ 4 ∷ 4 ∷ 4 ∷ 5 ∷ []);
}

last_day_short : short_days busy_session ≡ 5 ∷ []
unfolding short_days daily_median_twice
last_day_short = refl

repeated_keys-count_example :
    has "k1" (map (λ e. e.0) (repeated_keys busy_session))
    ≡ leb 2 (count "k1" (payment_keys busy_session))
repeated_keys-count_example = repeated_keys-count busy_session "k1"

has_day-short_days_example :
    IsDaysOf (days_of (order_days busy_session)) (order_days busy_session)
    × ((has_day 5 (short_days busy_session) ≡ true) ↔ IsShort busy_session 5)
has_day-short_days_example = has_day-short_days busy_session 5

has_day-unreported_days_example : has_day 8 (unreported_days trade_session) ≡ (
    has_day 8 (order_days trade_session)
    && not (has_day 8 (map (λ r. r.report_date) trade_session.daily_revenue_report)))
has_day-unreported_days_example = has_day-unreported_days trade_session 8

revenue_mismatches-is_mismatch_example :
    revenue_mismatches small_env trade_session
    ≡ done (
        map (mismatch_draft small_env) (
          map
            (λ r. (r, totals_of trade_session (report_key r)))
            (keep (is_mismatch trade_session) (load_reports trade_session))))
revenue_mismatches-is_mismatch_example = revenue_mismatches-is_mismatch small_env trade_session refl

reused_day : length (reused (sort_rates trade_session.fx_rates)) ≡ 1
unfolding reused
reused_day = refl

shift_of_three : is_shift (pos 3) (negsuc 2) ≡ true
shift_of_three = refl

run_all_detectors-is_failed_example :
    ((run_all_detectors small_env trade_world).1.session ≡ trade_world.session)
    × (is_failed (run_all_detectors small_env trade_world).0 ≡ lacks_rates trade_world.session)
run_all_detectors-is_failed_example = run_all_detectors-is_failed small_env trade_world
