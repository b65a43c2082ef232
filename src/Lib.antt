-- ===== src/Lib.antt =====
-- LineageIQ, backend/app: data incidents found by deterministic controls, and a bounded agent that
-- investigates an incident with read-only tools, cites stored evidence, and goes to a human where
-- the review policy says so.
--
-- How the parts work together. Controls (backend/app/detection) read the tables and give alerts.
-- The incident service (backend/app/incidents/service.py) stores alerts, an incident, and one row of
-- evidence per alert. The orchestrator (backend/app/agent/orchestrator.py) builds a context from
-- that evidence, runs a loop in which a client (backend/app/agent/llm.py) chooses tool calls along a
-- plan (backend/app/agent/knowledge.py), collects what the tools (backend/app/tools) answer, lets the
-- client write a report, validates the report against the stored evidence
-- (backend/app/agent/validation.py), and decides on human review (backend/app/agent/policy.py).
--
-- Which file models which part:
--   Taxonomy             backend/app/core/taxonomy.py
--   Database             backend/app/models/business.py, backend/app/models/operational.py; a
--                        Session is the contents of the tables, each a list of rows, oldest first
--   Effects, Environment statements that read and write the world and may raise; the clock,
--                        uuid4, and the texts of dates and decimals are functions of the Env
--   Detection.Severity   backend/app/detection/severity.py
--   Detection.Alerts     backend/app/schemas/detection.py
--   Detection.Reconcile  backend/app/detection/reconcile.py; Totals and Errors hold its theorems
--   Detection.Controls   backend/app/detection/detectors.py; Suite is run_all_detectors
--   Simulator.Fx         convert of backend/app/simulator/fx.py
--   Simulator.Validator  backend/app/simulator/validator.py; Silent relates it to the controls
--   Incidents            backend/app/incidents/service.py, backend/app/incidents/manifest.py
--   Incidents.Injectors  backend/app/incidents/injectors.py, an injector per file; Registry has the
--                        choice of an injector, and generate_manifests and inject_manifest of
--                        backend/app/incidents/service.py
--   Incidents.Injected   what the injectors do, and which control finds it
--   Incidents.Runner     backend/app/detection/runner.py
--   Lineage.Focus        the focus nodes of backend/app/lineage
--   Lineage.Store        backend/app/lineage/store.py and types.py, over networkx as a parameter;
--                        Search is a graph library for the tests
--   Lineage.Atlas        backend/app/lineage/graph_config.py
--   Tools                backend/app/tools/base.py; Tools.Contract is the interface that a tool
--                        fulfils and that the orchestrator's theorems take
--   Tools.SqlGuard       backend/app/tools/sql_guard.py, over the parser sqlglot as a parameter
--   Tools.Sql            backend/app/tools/sql_tool.py, over the database as a parameter: its
--                        answers, and the session after a statement, which may write
--   Tools.Logs, Tools.Pipelines, Tools.Schema, Tools.Lineage, Tools.Historical, Tools.Registry
--                        the other five tools of backend/app/tools and the registry of all six
--   Agent.Types          backend/app/agent/types.py, backend/app/schemas/investigation.py
--   Agent.Knowledge      backend/app/agent/knowledge.py
--   Agent.Llm            backend/app/agent/llm.py
--   Agent.Context        build_context of backend/app/agent/orchestrator.py
--   Agent.Orchestrator   investigate_incident of the same file: the loop (act, iterate, gather),
--                        its invariants (Loop, Trace, Calls, Plan), and the whole (Outcome, Returns, Review)
--   Agent.Validation     backend/app/agent/validation.py
--   Agent.Policy         backend/app/agent/policy.py; Floats has its comparison of confidences in
--                        double-precision floats
--
-- Numbers. A datetime is the number of microseconds since the year 1, a date a number of days, money
-- an integer number of ten-thousandths, a confidence, score or reliability a number of
-- ten-thousandths, a cost a number of billionths. What is written before an exception stays
-- written. The loop of the orchestrator runs on fuel, one more than the budget's number of tool
-- calls; each iteration that goes on collects one entry, so that this is enough, as the rule of the
-- loop shows.
--
-- Not modelled: the HTTP interface, the command lines, settings, logging and tracing; the request to
-- a real model; the constraints of the database, such as unique keys, so that an update of the row
-- of a key is an update of the rows with it; the historical index, of which the tools see an
-- interface, and its fitting; the lineage tool, too, takes its store through an interface; the files
-- of manifests; the data generator, the evaluation and the machine learning. The draws of random, the
-- SHA-256 of a seed and the products with a fraction are functions of a Draws.
pub mod Agent
mod Common
pub mod Database
pub mod Detection
pub mod Effects
pub mod Environment
pub mod Incidents
pub mod Lineage
pub mod Simulator
pub mod Taxonomy
pub mod Tools
