-- ===== src/Tools/Tests.antt =====
-- The tools over a small parser, an empty database and a graph of one node.
use lineageiq.Common.{
  ℕ, String, none, some, show, Option, if◌then◌else◌, [], ◌∷◌, List, All, str_eq, ◌≡◌, refl, map,
  contains_lower,
}
use lineageiq.Effects.{ok}
use lineageiq.Database.{Session, SystemLog, Value, Payload, text, texts, int}
use lineageiq.Environment.{Env}
use lineageiq.Agent.Samples.{small_env}
use lineageiq.Tools.SqlGuard.{Sqlglot, wrap}
use lineageiq.Tools.SqlGuard.Accepts.{IsReadable}
use lineageiq.Tools.Contract.{IsReadOnly}
use lineageiq.Tools.Sql.{SqlDatabase, KeepsOnQueries}
use lineageiq.Tools.Logs.{LogQuery, log_query, matched_logs}
use lineageiq.Tools.Logs.Bounds.{IsSearch, matched_logs-IsSearch}
use lineageiq.Tools.Lineage.{LineageStore}
use lineageiq.Tools.Registry.{ToolResources, default_registry, default_registry-IsReadOnly}

-- A query, and a statement that writes.
data OrdersSql : Type 0 where
  read_orders : OrdersSql
  drop_orders : OrdersSql

-- Every text but one is a query of the table orders.
abbrev orders_sqlglot : Sqlglot
orders_sqlglot = record {
  Expression = OrdersSql;
  parse =
      λ s. if str_eq s "DROP TABLE orders" then ok (drop_orders ∷ []) else ok (read_orders ∷ []);
  walk = λ e. e ∷ [];
  is_instance = λ e c. elim e [ read_orders ↦ str_eq c "Select" | drop_orders ↦ str_eq c "Drop" ];
  type_name = λ e. "Select";
  anonymous_name = λ e. none;
  function_name = λ e. none;
  cte_names = λ e. [];
  table_names = λ e. "orders" ∷ [];
  sql = λ e. elim e [ read_orders ↦ "SELECT * FROM orders" | drop_orders ↦ "DROP TABLE orders" ];
  strip = λ s. s;
  lower = λ s. s;
}

-- The query gives no rows; any other text deletes the orders.
abbrev empty_database : SqlDatabase
empty_database = record {
  sqlglot = orders_sqlglot;
  row_limit = 500;
  max_length = 4000;
  execute = λ wrapped params s. (
    ok ("order_id" ∷ [], []),
    if str_eq wrapped "SELECT * FROM (SELECT * FROM orders) AS _lq LIMIT 501"
        then s
        else record s { orders = [] },
  );
  elapsed = λ query. "0.0";
}

readable_kept :
    (stmt : OrdersSql) (params : Option Value) (s : Session)
    → IsReadable orders_sqlglot stmt
    → (empty_database.execute (wrap orders_sqlglot 500 stmt) params s).1 ≡ s
unfolding show
readable_kept read_orders params s r = refl
readable_kept drop_orders params s r = cc (r.top)

empty_database-KeepsOnQueries : KeepsOnQueries empty_database
empty_database-KeepsOnQueries = record { keeps = readable_kept }

abbrev one_node : LineageStore
one_node = record {
  has_node = λ n. str_eq n "orders";
  upstream = λ n d. record { nodes = n ∷ []; edges = []; paths = []; affected_assets = [] };
  downstream = λ n d. record { nodes = n ∷ []; edges = []; paths = []; affected_assets = [] };
}

abbrev small_resources : ToolResources
small_resources = record {
  database = empty_database;
  log_texts = record { log_text = λ l. l.message; counts_text = λ counts. "{}" };
  lineage = one_node;
  historical = record { search = λ query k. []; strip = λ s. s };
  run_texts = record { run_text = λ r. r.status; hours = λ a b. 0 };
  catalog = record { columns = λ table. none; event_text = λ e. e.change_type };
}

default_registry-IsReadOnly_example : All IsReadOnly (default_registry small_env small_resources)
default_registry-IsReadOnly_example =
    default_registry-IsReadOnly small_env small_resources empty_database-KeepsOnQueries

abbrev log_at : ℕ → String → SystemLog
log_at timestamp message = record {
  log_id = message;
  timestamp = timestamp;
  service = "payment_provider_api";
  log_level = "ERROR";
  message = message;
  correlation_id = none;
  pipeline_run_id = none;
  structured_metadata = none;
}

abbrev error_query : LogQuery
error_query = record {
  service = some "payment_provider_api";
  start = none;
  end = some 9;
  terms = "TimeOut" ∷ [];
  levels = "ERROR" ∷ [];
  max_results = 2;
}

abbrev some_logs : List SystemLog
some_logs =
    log_at 3 "timeout 3"
    ∷ log_at 1 "timeout 1"
    ∷ log_at 2 "refused"
    ∷ log_at 10 "timeout 10"
    ∷ log_at 4 "TIMEOUT 4"
    ∷ []

two_found :
    map (λ (l : SystemLog). l.message) (matched_logs error_query some_logs)
    ≡ "timeout 1" ∷ "timeout 3" ∷ []
unfolding matched_logs contains_lower
two_found = refl

-- The small environment reads the time of one text.
abbrev log_env : Env
log_env = record small_env { datetime_of = λ s. if str_eq s "9" then some 9 else none }

abbrev error_args : Payload
error_args =
    ("service", text "payment_provider_api")
    ∷ ("end_time", text "9")
    ∷ ("search_terms", texts ("TimeOut" ∷ []))
    ∷ ("log_levels", texts ("ERROR" ∷ []))
    ∷ ("max_results", int 2)
    ∷ []

error_args_read : log_query log_env error_args ≡ ok error_query
unfolding log_query
error_args_read = refl

matched_logs-IsSearch_example : IsSearch error_query some_logs (matched_logs error_query some_logs)
matched_logs-IsSearch_example =
    matched_logs-IsSearch log_env error_args error_query some_logs error_args_read
