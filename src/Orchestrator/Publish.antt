-- ===== src/Orchestrator/Publish.antt =====
-- orchestrator.py: what a run may publish.
use cloudcause.Prelude.{ℕ, ◌≡◌, refl, String, Option, none, some, List, [], ◌∷◌, All, if-holds}
use cloudcause.Prelude.Dict.{Dict}
use cloudcause.Prelude.Floats.{FloatOps, FloatLaws}
use cloudcause.Prelude.Sorting.{sort_by-All}
use cloudcause.Contracts.Common.{Provider, DateRange}
use cloudcause.Contracts.Analytics.{PeriodComparison}
use cloudcause.Contracts.Investigation.{Finding, is_nonempty}
use cloudcause.Contracts.Request.{InvestigationRequest, current_period, baseline_period}
use cloudcause.Contracts.Report.{InvestigationPlan, WorkerResponse, InvestigationReport}
use cloudcause.Anomaly.Compare.{reconcile_findings}
use cloudcause.Evidence.Checks.{candidate_index}
use cloudcause.Evidence.Validate.{Context}
use cloudcause.Evidence.Validate.Publishable.{IsPublishable}
use cloudcause.Evidence.Validate.Published.{validate_findings-IsPublishable}
use cloudcause.Evidence.Ranking.{ranks_before, rank_findings, IsRanked, rank_findings-IsRanked}
use cloudcause.Knowledge.Store.{KnowledgeStore}
use cloudcause.Focus.Normalizer.{FocusRecord, to_focus_records}
use cloudcause.Orchestrator.Load.{Adapters, Loaded, load_costs}
use cloudcause.Orchestrator.Planner.{build_plan}
use cloudcause.Orchestrator.Responses.{
  Client, investigate, active_providers, findings_of, available_from_responses,
}
use cloudcause.Orchestrator.Run.{
  OrchestratorSettings, RunResult, reported, validated, report_of, plan_and_report, comparison_of,
  run_projected, run_loaded, run_dated, run,
}

-- if the run gives a report, the report has the property
abbrev pub Reports {κ} : {A : Type 0} → (A → Type κ) → RunResult A → Type κ
Reports P (reported report) = P report
Reports P _ = Unit

module _ {Num : Type 0} ⦃F : FloatOps Num⦄ (settings : OrchestratorSettings Num)
    (knowledge : KnowledgeStore) (workers : Dict Provider (Client Num)) (id : String)
    (request : InvestigationRequest) (month_start : ℕ → ℕ) (money : Num → String) where
  -- a property of the reports that are put together from what was loaded
  abbrev Always : (InvestigationReport Num → Type 0) → Loaded Num → DateRange → DateRange → Type 0
  Always P loaded current baseline =
      (plan : InvestigationPlan Num)
      → build_plan money id request current baseline
          (comparison_of settings request current baseline loaded)
          (active_providers loaded.unavailable request.providers)
        ≡ some plan
      → P (
          report_of settings knowledge id request current baseline loaded
            (comparison_of settings request current baseline loaded) plan
            (investigate workers id request (comparison_of settings request current baseline loaded)
              plan.tasks))

  run_loaded-Reports :
      (P : InvestigationReport Num → Type 0) (loaded : Loaded Num) (current baseline : DateRange)
      → Always P loaded current baseline
      → Reports P (
          run_loaded month_start money settings knowledge workers id request current baseline
            loaded)
  unfolding run_loaded
  run_loaded-Reports P loaded current baseline h =
      if-holds (Reports P) (is_nonempty (active_providers loaded.unavailable request.providers))
        (at_projection (to_focus_records month_start settings.focus_version loaded.records)) tt
    where
      comparison : PeriodComparison Num
      comparison = comparison_of settings request current baseline loaded

      planned :
          (o : Option (InvestigationPlan Num))
          → build_plan money id request current baseline comparison
              (active_providers loaded.unavailable request.providers)
            ≡ o
          → Reports P (
              plan_and_report settings knowledge workers id request current baseline loaded
                comparison o)
      planned none eq = tt
      planned (some plan) eq = h plan eq

      at_projection :
          (o : Option (List (FocusRecord Num)))
          → Reports P (
              run_projected month_start money settings knowledge workers id request current baseline
                loaded o)
      at_projection none = tt
      at_projection (some _) = planned _ refl

  pub run-Reports :
      (adapters : Adapters Num) (P : InvestigationReport Num → Type 0)
      → ((current baseline : DateRange)
          → Always P (load_costs adapters request (current ∷ baseline ∷ [])) current baseline)
      → Reports P (run month_start money settings knowledge workers adapters id request)
  unfolding run
  run-Reports adapters P h = dated (current_period request) (baseline_period request)
    where
      dated :
          (c b : Option DateRange)
          → Reports P
              (run_dated month_start money settings knowledge workers adapters id request c b)
      dated none b = tt
      dated (some current) none = tt
      dated (some current) (some baseline) =
          run_loaded-Reports P (load_costs adapters request (current ∷ baseline ∷ [])) current
            baseline (h current baseline)

  -- what was known when the findings of the report were validated
  abbrev pub context_of : Adapters Num → InvestigationReport Num → Context Num
  context_of adapters report = record {
    known =
        (load_costs adapters request
          (report.current_period ∷ report.baseline_period ∷ [])).known_ids;
    candidates = candidate_index (some report.comparison);
    available = some (
        available_from_responses
          (investigate workers id request report.comparison report.plan.tasks) []);
  }

  -- Whatever the workers answer, every finding of a report is publishable for the resources that the
  -- providers' own data names, the report's own comparison and the source types that the workers had;
  -- the findings are in their ranked order, and the report's reconciliation is that of these findings
  -- with the change that the comparison measured.
  pub run-Publishes :
      (L : FloatLaws Num) (adapters : Adapters Num)
      → Reports
          (λ (report : InvestigationReport Num).
            All (IsPublishable (context_of adapters report)) report.findings
            × IsRanked report.findings
            × (report.reconciliation
                ≡ reconcile_findings report.findings report.comparison.total_absolute_change
                    settings.analytics.reconciliation_tolerance))
          (run month_start money settings knowledge workers adapters id request)
  unfolding report_of rank_findings
  run-Publishes L adapters = run-Reports adapters _ (λ current baseline plan eq.
      let loaded : Loaded Num = load_costs adapters request (current ∷ baseline ∷ []) in
      let comparison : PeriodComparison Num =
        comparison_of settings request current baseline loaded in
      let responses : List (WorkerResponse Num) =
        investigate workers id request comparison plan.tasks in
      let findings : List (Finding Num) = (validated loaded comparison responses).findings in
      (
        sort_by-All ranks_before _ findings (
            validate_findings-IsPublishable L (findings_of responses) loaded.known_ids
              (some comparison) (some (available_from_responses responses []))),
        (rank_findings-IsRanked L findings).1,
        refl,
      ))
