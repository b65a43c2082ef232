-- ===== src/Agent/Knowledge/Tests.antt =====
-- The plan of a concrete root cause.
use lineageiq.Common.{[], ◌∷◌, false, none, String, str_eq, some, map, ◌≡◌, refl, List}
use lineageiq.Effects.{ok, raised}
use lineageiq.Tools.Registry.{ToolResources, default_registry}
use lineageiq.Taxonomy.{RootCauseCode}
use lineageiq.Agent.Samples.{small_env}
use lineageiq.Agent.Types.{ToolInvocation}
use lineageiq.Agent.Knowledge.{build_playbook}
use lineageiq.Agent.Knowledge.Plans.{IsPlan, registered, build_playbook-IsPlan}

abbrev rate_plan : List ToolInvocation
rate_plan = elim (build_playbook small_env RootCauseCode.stale_fx_rate [] (some "fx_rates")) [
  | raised e ↦ []
  | ok plan ↦ plan
]

-- Tools over a parser that parses nothing and a graph without nodes.
abbrev bare_resources : ToolResources
bare_resources = record {
  database = record {
    sqlglot = record {
      Expression = String;
      parse = λ s. ok [];
      walk = λ e. e ∷ [];
      is_instance = λ e c. str_eq e c;
      type_name = λ e. e;
      anonymous_name = λ e. none;
      function_name = λ e. none;
      cte_names = λ e. [];
      table_names = λ e. [];
      sql = λ e. e;
      strip = λ s. s;
      lower = λ s. s;
    };
    row_limit = 500;
    max_length = 4000;
    execute = λ wrapped params s. (ok ([], []), s);
    elapsed = λ query. "0.0";
  };
  log_texts = record { log_text = λ l. l.message; counts_text = λ counts. "{}" };
  lineage = record {
    has_node = λ n. false;
    upstream = λ n d. record { nodes = []; edges = []; paths = []; affected_assets = [] };
    downstream = λ n d. record { nodes = []; edges = []; paths = []; affected_assets = [] };
  };
  historical = record { search = λ query k. []; strip = λ s. s };
  run_texts = record { run_text = λ r. r.status; hours = λ a b. 0 };
  catalog = record { columns = λ table. none; event_text = λ e. e.change_type };
}

rate_planned :
    build_playbook small_env RootCauseCode.stale_fx_rate [] (some "fx_rates") ≡ ok rate_plan
unfolding build_playbook
rate_planned = refl

build_playbook-IsPlan_example :
    IsPlan
      (registered (default_registry small_env bare_resources))
      (map (λ i. i.tool_name) rate_plan)
build_playbook-IsPlan_example =
    build_playbook-IsPlan small_env bare_resources RootCauseCode.stale_fx_rate [] (some "fx_rates")
      rate_plan rate_planned
