-- ===== src/Orchestrator/Run.antt =====
-- orchestrator.py: `Orchestrator._run`, over the interfaces of the adapters and the workers.
use cloudcause.Prelude.{
  ℕ, String, Option, none, some, List, [], ◌∷◌, ◌++◌, map, length, string_eq, if◌then◌else◌,
}
use cloudcause.Prelude.Dict.{Dict}
use cloudcause.Prelude.Floats.{FloatOps}
use cloudcause.Prelude.Sorting.{sort_by}
use cloudcause.Contracts.Common.{Provider, provider_eq, DateRange}
use cloudcause.Contracts.Analytics.{AnalyticsConfig, PeriodComparison}
use cloudcause.Contracts.Investigation.{ProviderStatus, is_nonempty, determine_effective_agent_mode}
use cloudcause.Contracts.Request.{InvestigationRequest, current_period, baseline_period}
use cloudcause.Contracts.Report.{InvestigationPlan, WorkerResponse, InvestigationReport}
use cloudcause.Anomaly.Compare.{compare_periods, reconcile_findings}
use cloudcause.Evidence.Checks.{missing_cause_sources}
use cloudcause.Evidence.Validate.{ValidationResult, validate_findings}
use cloudcause.Evidence.Ranking.{rank_findings}
use cloudcause.Knowledge.Store.{KnowledgeStore, build_knowledge_provenance}
use cloudcause.Focus.Normalizer.{FocusRecord, to_focus_records}
use cloudcause.Orchestrator.Load.{Adapters, Loaded, load_costs}
use cloudcause.Orchestrator.Planner.{build_plan}
use cloudcause.Orchestrator.Sources.{dedupe_sources, report_origin}
use cloudcause.Orchestrator.Responses.{
  Client, investigate, active_providers, findings_of, sources_of_responses, warnings_of,
  available_from_responses, status_of, skip_warnings, drop_warning, missing_warnings,
  tolerance_warning, stale_warning, citations_of, currency_of, provider_before,
}

-- the settings that a run reads
pub record OrchestratorSettings (Num : Type 0) : Type 0 where
  pub focus_version : String
  pub analytics : AnalyticsConfig Num

-- a run ends in a report or in an exception
pub data RunResult (A : Type 0) : Type 0 where
  reported : A → RunResult A
  -- ProviderDataUnavailableError, with the reasons
  no_cost_data : List ProviderStatus → RunResult A
  dates_out_of_order unsupported_focus_version question_too_long : RunResult A

module _ {Num : Type 0} ⦃F : FloatOps Num⦄ where
  -- the validation of what the workers found
  abbrev pub validated :
      Loaded Num → PeriodComparison Num → List (WorkerResponse Num) → ValidationResult Num
  validated loaded comparison responses =
      validate_findings (findings_of responses) loaded.known_ids (some comparison)
        (some (available_from_responses responses []))

  -- `_run` after the workers have answered
  unfoldable pub report_of :
      OrchestratorSettings Num
      → KnowledgeStore
      → String
      → InvestigationRequest
      → DateRange
      → DateRange
      → Loaded Num
      → PeriodComparison Num
      → InvestigationPlan Num
      → List (WorkerResponse Num)
      → InvestigationReport Num
  unfolding validate_findings rank_findings reconcile_findings build_knowledge_provenance
      dedupe_sources report_origin determine_effective_agent_mode available_from_responses
      findings_of status_of sort_by missing_cause_sources
  report_of settings knowledge investigation_id request current baseline loaded comparison plan
        responses =
      let validation = validated loaded comparison responses in
      let published = rank_findings validation.findings in
      let statuses = loaded.unavailable ++ map status_of responses in
      let available = available_from_responses responses [] in
      let reconciliation =
        reconcile_findings published comparison.total_absolute_change
          settings.analytics.reconciliation_tolerance in
      let provenance = build_knowledge_provenance knowledge (citations_of published) in
      let sources = dedupe_sources (loaded.sources ++ sources_of_responses responses) in
      record {
        investigation_id = investigation_id;
        request = request;
        plan = plan;
        current_period = current;
        baseline_period = baseline;
        total_current_cost = comparison.total_current_cost;
        total_baseline_cost = comparison.total_baseline_cost;
        total_absolute_change = comparison.total_absolute_change;
        total_percent_change = comparison.total_percent_change;
        currency = currency_of comparison.providers;
        comparison = comparison;
        findings = published;
        provider_statuses = statuses;
        reconciliation = reconciliation;
        validation_issues = validation.issues;
        warnings =
            skip_warnings loaded.unavailable
            ++ (warnings_of responses
                ++ (drop_warning (length validation.dropped)
                    ++ (missing_warnings (sort_by (λ a b. provider_before a.0 b.0) available)
                        ++ (tolerance_warning reconciliation
                            ++ stale_warning provenance.stale_rule_ids))));
        sources = sources;
        knowledge = provenance;
        data_origin = report_origin sources;
        agent_mode = determine_effective_agent_mode request.agent_mode statuses;
      }

  -- the run from the comparison on
  abbrev pub plan_and_report :
      OrchestratorSettings Num
      → KnowledgeStore
      → Dict Provider (Client Num)
      → String
      → InvestigationRequest
      → DateRange
      → DateRange
      → Loaded Num
      → PeriodComparison Num
      → Option (InvestigationPlan Num)
      → RunResult (InvestigationReport Num)
  plan_and_report settings knowledge workers id request current baseline loaded comparison none =
      question_too_long
  plan_and_report settings knowledge workers id request current baseline loaded comparison
        (some plan) =
      reported (
        report_of settings knowledge id request current baseline loaded comparison plan
          (investigate workers id request comparison plan.tasks))

  abbrev pub comparison_of :
      OrchestratorSettings Num
      → InvestigationRequest
      → DateRange
      → DateRange
      → Loaded Num
      → PeriodComparison Num
  comparison_of settings request current baseline loaded =
      compare_periods loaded.records (active_providers loaded.unavailable request.providers) current
        baseline settings.analytics

  module _ (month_start : ℕ → ℕ) (money : Num → String) where
    -- the run from the projection to FOCUS on
    abbrev pub run_projected :
        OrchestratorSettings Num
        → KnowledgeStore
        → Dict Provider (Client Num)
        → String
        → InvestigationRequest
        → DateRange
        → DateRange
        → Loaded Num
        → Option (List (FocusRecord Num))
        → RunResult (InvestigationReport Num)
    run_projected settings knowledge workers id request current baseline loaded none =
        unsupported_focus_version
    run_projected settings knowledge workers id request current baseline loaded (some _) =
        let comparison = comparison_of settings request current baseline loaded in
        plan_and_report settings knowledge workers id request current baseline loaded comparison (
          build_plan money id request current baseline comparison
            (active_providers loaded.unavailable request.providers))

    -- the run with the costs loaded
    unfoldable pub run_loaded :
        OrchestratorSettings Num
        → KnowledgeStore
        → Dict Provider (Client Num)
        → String
        → InvestigationRequest
        → DateRange
        → DateRange
        → Loaded Num
        → RunResult (InvestigationReport Num)
    unfolding to_focus_records compare_periods build_plan report_of investigate
    run_loaded settings knowledge workers id request current baseline loaded =
        if is_nonempty (active_providers loaded.unavailable request.providers)
        then run_projected settings knowledge workers id request current baseline loaded
            (to_focus_records month_start settings.focus_version loaded.records)
        else no_cost_data loaded.unavailable

    -- the run with its periods, if the dates are in order
    abbrev pub run_dated :
        OrchestratorSettings Num
        → KnowledgeStore
        → Dict Provider (Client Num)
        → Adapters Num
        → String
        → InvestigationRequest
        → Option DateRange
        → Option DateRange
        → RunResult (InvestigationReport Num)
    run_dated settings knowledge workers adapters id request (some current) (some baseline) =
        run_loaded settings knowledge workers id request current baseline
          (load_costs adapters request (current ∷ baseline ∷ []))
    run_dated settings knowledge workers adapters id request (some current) none =
        dates_out_of_order
    run_dated settings knowledge workers adapters id request none baseline = dates_out_of_order

    -- `_run`
    unfoldable pub run :
        OrchestratorSettings Num
        → KnowledgeStore
        → Dict Provider (Client Num)
        → Adapters Num
        → String
        → InvestigationRequest
        → RunResult (InvestigationReport Num)
    unfolding run_loaded load_costs current_period baseline_period
    run settings knowledge workers adapters id request =
        run_dated settings knowledge workers adapters id request (current_period request)
          (baseline_period request)
