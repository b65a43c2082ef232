-- ===== src/Agent/Orchestrator/Tests.antt =====
-- The investigation of a small incident.
use lineageiq.Common.{◌+◌, ◌*◌, ◌≡◌, ◌↔◌, ◌⊎◌, refl, true, false, some, most_common_one, counter}
use lineageiq.Effects.{ok}
use lineageiq.Agent.Samples.{
  small_env, small_settings, small_budget, two_tools, two_tools-IsReadOnly, partial_incident,
  small_session, small_run, no_dump, partial_context, partial_plan, first_report,
}
use lineageiq.Taxonomy.{root_cause_of_value, severity_of_value}
use lineageiq.Lineage.Focus.{focus_node_for}
use lineageiq.Agent.Knowledge.{build_playbook}
use lineageiq.Agent.Llm.{fake_llm}
use lineageiq.Agent.Context.{build_context, context_of, leading_value}
use lineageiq.Agent.Validation.Grounding.{IsGrounded}
use lineageiq.Agent.Policy.Escalation.{MustEscalate}
use lineageiq.Agent.Orchestrator.{
  Run, begin_run, find_incident, investigate_incident, gather, LoopEnd, review_report, source_count,
}
use lineageiq.Agent.Orchestrator.Plan.{IsPlanned, gather-IsPlanned}
use lineageiq.Agent.Orchestrator.Outcome.{IsOutcome, investigate_incident-IsOutcome}
use lineageiq.Agent.Orchestrator.Returns.{IsPlannedReport, investigate_incident-IsPlannedReport}
use lineageiq.Agent.Orchestrator.Review.{review_report-MustEscalate}

partial_found : find_incident "INC-1" small_run.world.session.incidents ≡ some partial_incident
unfolding find_incident
partial_found = refl

partial_built : build_context small_run.world.session partial_incident 8 ≡ ok partial_context
unfolding build_context context_of root_cause_of_value leading_value most_common_one counter
    severity_of_value
partial_built = refl

partial_planned :
    build_playbook small_env partial_context.suspected_root_cause partial_context.alert_meta
      partial_context.focus_node
    ≡ ok partial_plan
unfolding build_playbook context_of focus_node_for root_cause_of_value
partial_planned = refl

investigate_incident-IsOutcome_example : IsOutcome "INC-1" small_session (
    investigate_incident small_env no_dump
      (fake_llm small_env small_settings)
      small_budget
      two_tools
      "INC-1"
      small_run)
investigate_incident-IsOutcome_example =
    investigate_incident-IsOutcome small_env no_dump small_settings small_budget two_tools
      two_tools-IsReadOnly "INC-1" small_run

investigate_incident-IsPlannedReport_example :
    IsPlannedReport small_env two_tools partial_context partial_plan 8
      (small_env.clock 0 + 120 * 1_000_000)
      (begin_run small_env (fake_llm small_env small_settings) "INC-1" small_run).1.world
      (investigate_incident small_env no_dump
        (fake_llm small_env small_settings)
        small_budget
        two_tools
        "INC-1"
        small_run)
investigate_incident-IsPlannedReport_example =
    investigate_incident-IsPlannedReport small_env no_dump small_settings small_budget two_tools
      "INC-1" partial_incident partial_context partial_plan small_run partial_found partial_built
      partial_planned

gather-IsPlanned_example :
    (end : LoopEnd) × (left : Run) × (gather small_env
        (fake_llm small_env small_settings)
        two_tools
        small_budget
        0
        9
        partial_context
        small_run
      ≡ (ok (some end), left))
    × IsPlanned small_env two_tools partial_context partial_plan 8 120_000_000 small_run.world end
        left.world
unfolding context_of
gather-IsPlanned_example =
    gather-IsPlanned small_env small_settings two_tools small_budget 0 partial_context partial_plan
      small_run partial_planned refl refl

review_report-MustEscalate_example :
    ((review_report small_env small_session partial_context false
        first_report).0.requires_human_review
      ≡ true)
    ↔ ((¬ IsGrounded small_session first_report)
        ⊎ MustEscalate first_report
            (source_count partial_context.collected)
            partial_context.severity
            false
            false
            false)
review_report-MustEscalate_example =
    review_report-MustEscalate small_env small_session partial_context false first_report
