-- ===== src/Tools/Registry.antt =====
-- backend/app/tools/registry.py: the default registry of the six read-only tools.
use lineageiq.Common.{[], All}
use lineageiq.Environment.{Env}
use lineageiq.Tools.{ToolRegistry, register}
use lineageiq.Tools.Contract.{IsReadOnly}
use lineageiq.Tools.Sql.{SqlDatabase, KeepsOnQueries, run_readonly_sql, run_readonly_sql-IsReadOnly}
use lineageiq.Tools.Logs.{LogTexts, search_logs, search_logs-IsReadOnly}
use lineageiq.Tools.Lineage.{LineageStore, query_lineage, query_lineage-IsReadOnly}
use lineageiq.Tools.Historical.{
  HistoricalIndex, search_historical_incidents, search_historical_incidents-IsReadOnly,
}
use lineageiq.Tools.Pipelines.{RunTexts, inspect_pipeline_runs, inspect_pipeline_runs-IsReadOnly}
use lineageiq.Tools.Schema.{SchemaCatalog, inspect_schema, inspect_schema-IsReadOnly}

-- What the tools use besides the session.
pub record ToolResources : Type 1 where
  pub database : SqlDatabase
  pub log_texts : LogTexts
  pub lineage : LineageStore
  pub historical : HistoricalIndex
  pub run_texts : RunTexts
  pub catalog : SchemaCatalog

unfoldable pub default_registry : Env → ToolResources → ToolRegistry
unfolding register run_readonly_sql search_logs query_lineage search_historical_incidents
    inspect_pipeline_runs inspect_schema
default_registry env r = register (inspect_schema env r.catalog) (
    register (inspect_pipeline_runs env r.run_texts) (
      register (search_historical_incidents env r.historical) (
        register (query_lineage env r.lineage) (
          register (search_logs env r.log_texts) (register (run_readonly_sql env r.database) [])))))

-- Every tool of the default registry, over any resources with a database that queries do not change,
-- fulfils the interface of read-only tools: in every state it only adds evidence of the incident of
-- its context, its answer names it and a row that it added, and an exception leaves the session as
-- it was but for such rows.
pub default_registry-IsReadOnly :
    (env : Env) (r : ToolResources)
    → KeepsOnQueries r.database
    → All IsReadOnly (default_registry env r)
unfolding default_registry
default_registry-IsReadOnly env r k = (
  run_readonly_sql-IsReadOnly env r.database k,
  (
    search_logs-IsReadOnly env r.log_texts,
    (
      query_lineage-IsReadOnly env r.lineage,
      (
        search_historical_incidents-IsReadOnly env r.historical,
        (
          inspect_pipeline_runs-IsReadOnly env r.run_texts,
          (inspect_schema-IsReadOnly env r.catalog, tt),
        ),
      ),
    ),
  ),
)
