-- ===== src/Tools/SqlGuard/Tests.antt =====
-- The guard with a parser of a small language.
use lineageiq.Common.{String, none, [], ◌∷◌, str_eq, show, ◌≡◌, ◌↔◌, refl, concat, if◌then◌else◌}
use lineageiq.Effects.{ok, raised, value_error}
use lineageiq.Tools.SqlGuard.{Sqlglot, validate_and_wrap_sql}
use lineageiq.Tools.SqlGuard.Accepts.{IsAccepted, validate_and_wrap_sql-IsAccepted}

data SmallSql : Type 0 where
  select_all : String → SmallSql
  drop_table : String → SmallSql

-- `FROM`-less queries: the text is the name of the table that is read.
abbrev small_sqlglot : Sqlglot
small_sqlglot = record {
  Expression = SmallSql;
  parse = λ s. if str_eq s ";" then raised (value_error "no statement") else ok (select_all s ∷ []);
  walk = λ e. e ∷ [];
  is_instance = λ e c. elim e [ select_all t ↦ str_eq c "Select" | drop_table t ↦ str_eq c "Drop" ];
  type_name = λ e. elim e [ select_all t ↦ "Select" | drop_table t ↦ "Drop" ];
  anonymous_name = λ e. none;
  function_name = λ e. none;
  cte_names = λ e. [];
  table_names = λ e. elim e [ select_all t ↦ t ∷ [] | drop_table t ↦ t ∷ [] ];
  sql = λ e. elim e [
    | select_all t ↦ concat ("SELECT * FROM " ∷ t ∷ [])
    | drop_table t ↦ concat ("DROP TABLE " ∷ t ∷ [])
  ];
  strip = λ s. s;
  lower = λ s. s;
}

orders_accepted :
    validate_and_wrap_sql small_sqlglot "orders" 500 4000
    ≡ ok "SELECT * FROM (SELECT * FROM orders) AS _lq LIMIT 501"
unfolding validate_and_wrap_sql show
orders_accepted = refl

validate_and_wrap_sql-IsAccepted_example :
    (validate_and_wrap_sql small_sqlglot "orders" 500 4000
      ≡ ok "SELECT * FROM (SELECT * FROM orders) AS _lq LIMIT 501")
    ↔ IsAccepted small_sqlglot "orders" 500 4000
        "SELECT * FROM (SELECT * FROM orders) AS _lq LIMIT 501"
validate_and_wrap_sql-IsAccepted_example =
    validate_and_wrap_sql-IsAccepted small_sqlglot "orders" 500 4000
      "SELECT * FROM (SELECT * FROM orders) AS _lq LIMIT 501"
