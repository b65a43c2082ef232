-- ===== src/Simulator/Validator/Tests.antt =====
-- A baseline of one customer and one day, which passes.
use lineageiq.Common.{pos, [], ◌∷◌, List, true, false, ◌+ℤ◌, ◌-ℤ◌, counter, ◌≡◌, refl}
use lineageiq.Database.{Session, CrmCustomer}
use lineageiq.Agent.Samples.{small_env}
use lineageiq.Detection.Samples.{trade_session, an_order, a_payment, a_rate, a_report}
use lineageiq.Simulator.Fx.{convert, quantize}
use lineageiq.Simulator.Validator.{
  CheckResult, valid, broken, validate_clean_baseline, report_passed,
}
use lineageiq.Simulator.Validator.Silent.{IsSilent, validate_clean_baseline-IsSilent}

abbrev crm_customer : CrmCustomer
crm_customer = record {
  crm_customer_id = "CRM-1";
  external_customer_reference = "ref";
  legal_name = "Ada";
  country = "DE";
  segment = "retail";
  updated_at = 0;
}

abbrev clean_session : Session
clean_session = record trade_session {
  crm_customers = crm_customer ∷ [];
  orders = an_order "O-1" 7 (pos 110) ∷ [];
  payments = a_payment "P-1" "k1" 7 ∷ [];
  fx_rates = a_rate 7 150_000_000 ∷ [];
  daily_revenue_report = a_report 7 (pos 165) ∷ [];
}

abbrev clean_checks : List CheckResult
clean_checks = elim (validate_clean_baseline clean_session) [
  | valid checks ↦ checks
  | broken e ↦ []
]

clean_session_valid : validate_clean_baseline clean_session ≡ valid clean_checks
unfolding validate_clean_baseline convert quantize
clean_session_valid = refl

clean_session_passes : report_passed clean_checks ≡ true
unfolding validate_clean_baseline convert quantize ◌+ℤ◌ ◌-ℤ◌ counter
clean_session_passes = refl

-- The report of the two days of trade is not of its orders.
trade_session_fails :
    report_passed
      (elim (validate_clean_baseline trade_session) [ valid checks ↦ checks | broken e ↦ [] ])
    ≡ false
unfolding validate_clean_baseline convert quantize ◌+ℤ◌ ◌-ℤ◌ counter
trade_session_fails = refl

validate_clean_baseline-IsSilent_example : IsSilent small_env clean_session
validate_clean_baseline-IsSilent_example =
    validate_clean_baseline-IsSilent small_env clean_session clean_checks clean_session_valid
      clean_session_passes
