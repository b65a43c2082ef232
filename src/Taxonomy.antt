-- ===== src/Taxonomy.antt =====
-- backend/app/core/taxonomy.py: incident types, root-cause codes, severities and their mappings.
-- The three enumerations are `str` enumerations, so `==` on them compares their values.
pub mod Codes
use lineageiq.Common.{
  ℕ, ◌≡◌, String, Bool, Option, none, some, List, [], ◌∷◌, str_eq, leb, if◌then◌else◌, ltb,
}

pub data IncidentType : Type 0 where
  duplicate_transaction stale_fx_rate missing_customer_mapping schema_change : IncidentType
  delayed_pipeline timezone_conversion_error null_contamination partial_load : IncidentType
  incorrect_aggregation upstream_api_failure : IncidentType

pub data RootCauseCode : Type 0 where
  duplicate_transaction stale_fx_rate missing_customer_mapping : RootCauseCode
  schema_contract_change delayed_pipeline timezone_conversion_error : RootCauseCode
  null_contamination partial_load incorrect_aggregation : RootCauseCode
  upstream_api_failure unknown : RootCauseCode

pub data Severity : Type 0 where
  low medium high critical : Severity

abbrev pub incident_type_value : IncidentType → String
incident_type_value IncidentType.duplicate_transaction = "duplicate_transaction"
incident_type_value IncidentType.stale_fx_rate = "stale_fx_rate"
incident_type_value IncidentType.missing_customer_mapping = "missing_customer_mapping"
incident_type_value IncidentType.schema_change = "schema_change"
incident_type_value IncidentType.delayed_pipeline = "delayed_pipeline"
incident_type_value IncidentType.timezone_conversion_error = "timezone_conversion_error"
incident_type_value IncidentType.null_contamination = "null_contamination"
incident_type_value IncidentType.partial_load = "partial_load"
incident_type_value IncidentType.incorrect_aggregation = "incorrect_aggregation"
incident_type_value IncidentType.upstream_api_failure = "upstream_api_failure"

-- `RootCauseCode.X.value`
abbrev pub root_cause_value : RootCauseCode → String
root_cause_value RootCauseCode.duplicate_transaction = "DUPLICATE_TRANSACTION"
root_cause_value RootCauseCode.stale_fx_rate = "STALE_FX_RATE"
root_cause_value RootCauseCode.missing_customer_mapping = "MISSING_CUSTOMER_MAPPING"
root_cause_value RootCauseCode.schema_contract_change = "SCHEMA_CONTRACT_CHANGE"
root_cause_value RootCauseCode.delayed_pipeline = "DELAYED_PIPELINE"
root_cause_value RootCauseCode.timezone_conversion_error = "TIMEZONE_CONVERSION_ERROR"
root_cause_value RootCauseCode.null_contamination = "NULL_CONTAMINATION"
root_cause_value RootCauseCode.partial_load = "PARTIAL_LOAD"
root_cause_value RootCauseCode.incorrect_aggregation = "INCORRECT_AGGREGATION"
root_cause_value RootCauseCode.upstream_api_failure = "UPSTREAM_API_FAILURE"
root_cause_value RootCauseCode.unknown = "UNKNOWN"

abbrev pub severity_value : Severity → String
severity_value Severity.low = "low"
severity_value Severity.medium = "medium"
severity_value Severity.high = "high"
severity_value Severity.critical = "critical"

-- The members of `RootCauseCode`, in the order of the class body.
abbrev pub all_root_causes : List RootCauseCode
all_root_causes =
    RootCauseCode.duplicate_transaction ∷ RootCauseCode.stale_fx_rate
    ∷ RootCauseCode.missing_customer_mapping ∷ RootCauseCode.schema_contract_change
    ∷ RootCauseCode.delayed_pipeline ∷ RootCauseCode.timezone_conversion_error
    ∷ RootCauseCode.null_contamination ∷ RootCauseCode.partial_load
    ∷ RootCauseCode.incorrect_aggregation ∷ RootCauseCode.upstream_api_failure
    ∷ RootCauseCode.unknown ∷ []

abbrev member_of : List RootCauseCode → String → Option RootCauseCode
member_of [] s = none
member_of (c ∷ cs) s = if str_eq (root_cause_value c) s then some c else member_of cs s

-- `RootCauseCode(s)`; `none` is the ValueError.
unfoldable pub root_cause_of_value : String → Option RootCauseCode
root_cause_of_value s = member_of all_root_causes s

-- `c == d`
abbrev pub same_cause : RootCauseCode → RootCauseCode → Bool
same_cause c d = str_eq (root_cause_value c) (root_cause_value d)

abbrev pub same_severity : Severity → Severity → Bool
same_severity a b = str_eq (severity_value a) (severity_value b)

-- `SEVERITY_ORDER.index(s)`
abbrev pub severity_index : Severity → ℕ
severity_index Severity.low = 0
severity_index Severity.medium = 1
severity_index Severity.high = 2
severity_index Severity.critical = 3

unfoldable pub root_cause_for : IncidentType → RootCauseCode
root_cause_for IncidentType.duplicate_transaction = RootCauseCode.duplicate_transaction
root_cause_for IncidentType.stale_fx_rate = RootCauseCode.stale_fx_rate
root_cause_for IncidentType.missing_customer_mapping = RootCauseCode.missing_customer_mapping
root_cause_for IncidentType.schema_change = RootCauseCode.schema_contract_change
root_cause_for IncidentType.delayed_pipeline = RootCauseCode.delayed_pipeline
root_cause_for IncidentType.timezone_conversion_error = RootCauseCode.timezone_conversion_error
root_cause_for IncidentType.null_contamination = RootCauseCode.null_contamination
root_cause_for IncidentType.partial_load = RootCauseCode.partial_load
root_cause_for IncidentType.incorrect_aggregation = RootCauseCode.incorrect_aggregation
root_cause_for IncidentType.upstream_api_failure = RootCauseCode.upstream_api_failure

-- `Severity(s)`; `none` is the ValueError.
unfoldable pub severity_of_value : String → Option Severity
severity_of_value s =
    if str_eq s "low"
    then some Severity.low
    else if str_eq s "medium"
    then some Severity.medium
    else if str_eq s "high"
    then some Severity.high
    else if str_eq s "critical"
    then some Severity.critical
    else none

-- `max(severities, key=SEVERITY_ORDER.index)` of two: the first of the greatest.
abbrev pub max_of : Severity → Severity → Severity
max_of a b = if ltb (severity_index a) (severity_index b) then b else a
