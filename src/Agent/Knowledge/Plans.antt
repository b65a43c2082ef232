-- ===== src/Agent/Knowledge/Plans.antt =====
-- What every plan of backend/app/agent/knowledge.py contains.
use lineageiq.Common.{
  all, all-append, ◌++◌, ||-true_right, any-append, length-append, ◌≤◌, String, true, false, Option,
  none, some, List, [], ◌∷◌, map, has, length, str_eq, ◌≡◌, refl, sym, ap, ◌∙◌, subst, arith,
  Bool-cases, inl, inr,
}
use lineageiq.Effects.{Result, ok, raised}
use lineageiq.Taxonomy.{RootCauseCode}
use lineageiq.Database.{Payload}
use lineageiq.Environment.{Env}
use lineageiq.Tools.{ToolRegistry}
use lineageiq.Tools.Registry.{ToolResources, default_registry}
use lineageiq.Agent.Types.{ToolInvocation}
use lineageiq.Agent.Knowledge.{build_playbook, steps_for, fx_steps, load_steps}
use lineageiq.Agent.Knowledge.Steps.{lineage_step, or_default, present}
use lineageiq.Agent.Knowledge.Fixed.{fixed_steps}

-- The names that plans are made of.
abbrev agent_tools : List String
agent_tools =
    "run_readonly_sql" ∷ "search_logs" ∷ "query_lineage" ∷ "search_historical_incidents"
    ∷ "inspect_pipeline_runs" ∷ "inspect_schema" ∷ []

-- The names of the tools of a registry.
abbrev pub registered : ToolRegistry → List String
registered registry = map (λ t. t.name) registry

-- The tools that a plan calls: three to five, of the given names; one maps the lineage, and one looks
-- for history.
pub record IsPlan (known names : List String) : Type 0 where
  pub tools : all (λ n. has n known) names ≡ true
  pub many : 3 ≤ length names
  pub few : length names ≤ 5
  pub lineage : has "query_lineage" names ≡ true
  pub history : has "search_historical_incidents" names ≡ true

abbrev IsLineage : Option ToolInvocation → Type 0
IsLineage o = (i : ToolInvocation) × (o ≡ some i) × (i.tool_name ≡ "query_lineage")

lineage_step-IsLineage :
    (focus : Option String) (default direction : String)
    → str_eq default "" ≡ false
    → IsLineage (lineage_step (or_default focus default) direction)
unfolding lineage_step
lineage_step-IsLineage none default direction h = rw h (_, refl, refl)
lineage_step-IsLineage (some node) default direction h = elim (Bool-cases (str_eq node "")) [
  | inl e ↦ rw (e, h) (_, refl, refl)
  | inr e ↦ rw (e, e) (_, refl, refl)
]

abbrev names_of : List (Option ToolInvocation) → List String
names_of steps = map (λ i. i.tool_name) (present steps)

last_two : List String
last_two = "query_lineage" ∷ "search_historical_incidents" ∷ []

IsPlan-before :
    (first : List String)
    → all (λ n. has n agent_tools) first ≡ true
    → 1 ≤ length first
    → length first ≤ 3
    → IsPlan agent_tools (first ++ last_two)
unfolding last_two
IsPlan-before first known some_steps few = record {
  tools = all-append (λ n. has n agent_tools) first last_two ∙ rw known refl;
  many = omega (arith, length-append first last_two);
  few = omega (arith, length-append first last_two);
  lineage =
      any-append (str_eq "query_lineage") first last_two
      ∙ ||-true_right (has "query_lineage" first) _ refl;
  history =
      any-append (str_eq "search_historical_incidents") first last_two
      ∙ ||-true_right (has "search_historical_incidents" first) _ refl;
}

-- The lineage step is present, and the step for history is the last.
names_of_last :
    (o : Option ToolInvocation) (h : ToolInvocation)
    → IsLineage o
    → h.tool_name ≡ "search_historical_incidents"
    → names_of (o ∷ some h ∷ []) ≡ last_two
unfolding last_two
names_of_last o h (i, e, l) p =
    ap (λ o. names_of (o ∷ some h ∷ [])) e
    ∙ ap (λ n. n ∷ h.tool_name ∷ []) l
    ∙ ap (λ n. "query_lineage" ∷ n ∷ []) p

is_plan :
    (first : List String) (focus : Option String) (default direction : String) (h : ToolInvocation)
    → all (λ n. has n agent_tools) first ≡ true
    → 1 ≤ length first
    → length first ≤ 3
    → str_eq default "" ≡ false
    → h.tool_name ≡ "search_historical_incidents"
    → IsPlan agent_tools
        (first ++ names_of (lineage_step (or_default focus default) direction ∷ some h ∷ []))
is_plan first focus default direction h known some_steps few named p =
    subst (λ ns. IsPlan agent_tools (first ++ ns))
      (sym (names_of_last _ h (lineage_step-IsLineage focus default direction named) p))
      (IsPlan-before first known some_steps few)

fixed_steps-IsPlan :
    (cause : RootCauseCode) (meta : Payload) (focus : Option String)
    → IsPlan agent_tools (names_of (fixed_steps cause meta focus))
unfolding fixed_steps
fixed_steps-IsPlan RootCauseCode.duplicate_transaction meta focus =
    is_plan ("run_readonly_sql" ∷ "search_logs" ∷ []) focus "payments" "downstream" _ refl
      (omega arith) (omega arith) refl refl
fixed_steps-IsPlan RootCauseCode.missing_customer_mapping meta focus =
    is_plan ("run_readonly_sql" ∷ "inspect_pipeline_runs" ∷ []) focus "customers" "downstream" _
      refl (omega arith) (omega arith) refl refl
fixed_steps-IsPlan RootCauseCode.schema_contract_change meta focus =
    is_plan ("inspect_schema" ∷ "inspect_pipeline_runs" ∷ "search_logs" ∷ []) focus "orders"
      "downstream" _ refl (omega arith) (omega arith) refl refl
fixed_steps-IsPlan RootCauseCode.delayed_pipeline meta focus =
    is_plan ("inspect_pipeline_runs" ∷ "search_logs" ∷ []) focus "revenue_aggregation_pipeline"
      "downstream" _ refl (omega arith) (omega arith) refl refl
fixed_steps-IsPlan RootCauseCode.timezone_conversion_error meta focus =
    is_plan ("run_readonly_sql" ∷ []) focus "orders" "downstream" _ refl (omega arith) (omega arith)
      refl refl
fixed_steps-IsPlan RootCauseCode.null_contamination meta focus =
    is_plan ("search_logs" ∷ "inspect_schema" ∷ []) focus "staging_records" "downstream" _ refl
      (omega arith) (omega arith) refl refl
fixed_steps-IsPlan RootCauseCode.incorrect_aggregation meta focus =
    is_plan ("run_readonly_sql" ∷ []) focus "revenue_aggregation_pipeline" "downstream" _ refl
      (omega arith) (omega arith) refl refl
fixed_steps-IsPlan RootCauseCode.upstream_api_failure meta focus =
    is_plan ("search_logs" ∷ "inspect_pipeline_runs" ∷ []) focus "payment_provider_api" "downstream"
      _ refl (omega arith) (omega arith) refl refl
fixed_steps-IsPlan _ meta focus =
    is_plan ("run_readonly_sql" ∷ []) focus "daily_revenue_report" "upstream" _ refl (omega arith)
      (omega arith) refl refl

fx_steps-IsPlan :
    (currency : String) (focus : Option String) (window : List String)
    → IsPlan agent_tools (names_of (fx_steps currency focus window))
unfolding fx_steps
fx_steps-IsPlan currency focus window =
    is_plan ("run_readonly_sql" ∷ "inspect_pipeline_runs" ∷ "search_logs" ∷ []) focus "fx_rates"
      "downstream" _ refl (omega arith) (omega arith) refl refl

load_steps-IsPlan :
    (focus : Option String) (where_clause : List String)
    → IsPlan agent_tools (names_of (load_steps focus where_clause))
unfolding load_steps
load_steps-IsPlan focus where_clause =
    is_plan ("run_readonly_sql" ∷ "inspect_pipeline_runs" ∷ []) focus "orders" "downstream" _ refl
      (omega arith) (omega arith) refl refl

-- Where the steps were built, they are a plan.
abbrev IsPlanned : Result (List (Option ToolInvocation)) → Type 0
IsPlanned (raised e) = Unit
IsPlanned (ok steps) = IsPlan agent_tools (names_of steps)

fx-IsPlanned :
    (currency : String) (focus : Option String) (window : Result (List String))
    → IsPlanned
        (elim window [ raised e ↦ raised e | ok window ↦ ok (fx_steps currency focus window) ])
fx-IsPlanned currency focus (raised e) = tt
fx-IsPlanned currency focus (ok window) = fx_steps-IsPlan currency focus window

load-IsPlanned :
    (focus : Option String) (window : Result (List String))
    → IsPlanned
        (elim window [ raised e ↦ raised e | ok where_clause ↦ ok (load_steps focus where_clause) ])
load-IsPlanned focus (raised e) = tt
load-IsPlanned focus (ok window) = load_steps-IsPlan focus window

steps_for-IsPlanned :
    (env : Env) (cause : RootCauseCode) (meta : Payload) (focus : Option String)
    → IsPlanned (steps_for env cause meta focus)
unfolding steps_for
steps_for-IsPlanned env RootCauseCode.stale_fx_rate meta focus = fx-IsPlanned _ focus _
steps_for-IsPlanned env RootCauseCode.partial_load meta focus = load-IsPlanned focus _
steps_for-IsPlanned env RootCauseCode.duplicate_transaction meta focus =
    fixed_steps-IsPlan RootCauseCode.duplicate_transaction meta focus
steps_for-IsPlanned env RootCauseCode.missing_customer_mapping meta focus =
    fixed_steps-IsPlan RootCauseCode.missing_customer_mapping meta focus
steps_for-IsPlanned env RootCauseCode.schema_contract_change meta focus =
    fixed_steps-IsPlan RootCauseCode.schema_contract_change meta focus
steps_for-IsPlanned env RootCauseCode.delayed_pipeline meta focus =
    fixed_steps-IsPlan RootCauseCode.delayed_pipeline meta focus
steps_for-IsPlanned env RootCauseCode.timezone_conversion_error meta focus =
    fixed_steps-IsPlan RootCauseCode.timezone_conversion_error meta focus
steps_for-IsPlanned env RootCauseCode.null_contamination meta focus =
    fixed_steps-IsPlan RootCauseCode.null_contamination meta focus
steps_for-IsPlanned env RootCauseCode.incorrect_aggregation meta focus =
    fixed_steps-IsPlan RootCauseCode.incorrect_aggregation meta focus
steps_for-IsPlanned env RootCauseCode.upstream_api_failure meta focus =
    fixed_steps-IsPlan RootCauseCode.upstream_api_failure meta focus
steps_for-IsPlanned env RootCauseCode.unknown meta focus =
    fixed_steps-IsPlan RootCauseCode.unknown meta focus

agent_tools-registered :
    (env : Env) (r : ToolResources) → agent_tools ≡ registered (default_registry env r)
unfolding default_registry
agent_tools-registered env r = refl

-- Every plan that is built, for any root cause, alert data and focus node, has three to five calls,
-- all of the names of tools of the default registry, over any resources; one of them maps the
-- lineage, and one looks for historical incidents.
pub build_playbook-IsPlan :
    (env : Env) (r : ToolResources) (cause : RootCauseCode) (meta : Payload) (focus : Option String)
    (plan : List ToolInvocation)
    → build_playbook env cause meta focus ≡ ok plan
    → IsPlan (registered (default_registry env r)) (map (λ i. i.tool_name) plan)
unfolding build_playbook
build_playbook-IsPlan env r cause meta focus plan h =
    subst (λ known. IsPlan known (map (λ i. i.tool_name) plan)) (agent_tools-registered env r)
      (of_steps (steps_for env cause meta focus) (steps_for-IsPlanned env cause meta focus) h)
  where
    of_steps :
        (r : Result (List (Option ToolInvocation)))
        → IsPlanned r
        → (elim r [ raised e ↦ raised e | ok steps ↦ ok (present steps) ]) ≡ ok plan
        → IsPlan agent_tools (map (λ i. i.tool_name) plan)
    of_steps (raised e) p h = cc
    of_steps (ok steps) p h =
        let q : present steps ≡ plan = cc in
        subst (λ (plan : List ToolInvocation). IsPlan agent_tools (map (λ i. i.tool_name) plan)) q p
