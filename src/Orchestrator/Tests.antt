-- ===== src/Orchestrator/Tests.antt =====
-- An investigation of two providers, one of which has no data.
use mathlib.Core.List.{Perm}
use cloudcause.Prelude.{
  ℕ, ◌≤◌, ◌≡◌, refl, arith, ◌⊎◌, true, Option, none, some, [], ◌∷◌, map, any, select, ◌&&◌, String,
  All, ap, sym, ◌∙◌,
}
use cloudcause.Prelude.Dict.{Dict, get}
use cloudcause.Prelude.Floats.{dec}
use cloudcause.Prelude.Micro.{Micro, micro_ops, micro_laws}
use cloudcause.Contracts.Common.{Provider, aws, azure, gcp, DateRange, upload}
use cloudcause.Contracts.Investigation.{ProviderStatus, worker_ok, stub_mode}
use cloudcause.Contracts.Records.{CostRecord, usage}
use cloudcause.Contracts.Request.{Provenance, InvestigationRequest, current_period, baseline_period}
use cloudcause.Contracts.Report.{WorkerRequest, WorkerResponse, InvestigationReport}
use cloudcause.Anomaly.Compare.{reconcile_findings}
use cloudcause.Evidence.Validate.Publishable.{IsPublishable}
use cloudcause.Evidence.Ranking.{IsRanked}
use cloudcause.Knowledge.Store.{KnowledgeStore}
use cloudcause.Orchestrator.Load.{Adapters, load_costs}
use cloudcause.Contracts.Report.{Fetched, fetched, failed_with}
use cloudcause.Orchestrator.Sources.{has_origin, report_origin, verified, report_origin-Least}
use cloudcause.Orchestrator.Responses.{Client}
use cloudcause.Orchestrator.Run.{OrchestratorSettings, comparison_of, run}
use cloudcause.Orchestrator.Publish.{Reports, context_of, run-Publishes}
use cloudcause.Contracts.Analytics.{PeriodComparison}
use cloudcause.Orchestrator.Accounted.{Accounted}
use cloudcause.Orchestrator.Statuses.{AnswersForItself, run-Accounts}
use cloudcause.Orchestrator.Available.{is_available}
use cloudcause.Orchestrator.Completes.{is_reported, all_of, question_fits, run_completes}

abbrev source_of : Provider → Provenance
source_of p = record { provider = p; source = "billing"; data_through = 60; origin = upload }

abbrev line : ℕ → ℕ → CostRecord Micro
line day cost = record {
  provider = aws;
  billing_account_id = "1";
  usage_date = day;
  service_name = "EC2";
  service_category = "Compute";
  charge_category = usage;
  charge_description = "";
  region_id = none;
  resource_id = some "i-1";
  resource_name = none;
  sku_id = none;
  usage_quantity = dec 1 0;
  usage_unit = "hours";
  billed_cost = dec cost 0;
  effective_cost = dec cost 0;
  currency = "USD";
  tags = [];
  commitment_discount_id = none;
  source_record_id = none;
}

abbrev adapters : Adapters Micro
adapters aws scenario dataset periods =
    fetched
      (record { items = line 31 90 ∷ line 1 10 ∷ []; provenance = source_of aws; resources = [] })
adapters _ scenario dataset periods = failed_with "no connector"

abbrev specialist : Client Micro
specialist asked = fetched (record {
  investigation_id = asked.investigation_id;
  provider = asked.provider;
  status = worker_ok;
  findings = [];
  sources = source_of asked.provider ∷ [];
  warnings = [];
  available_source_types = "metric" ∷ [];
  agent_mode = stub_mode;
  data_origin = upload;
  message = "";
})

abbrev workers : Dict Provider (Client Micro)
workers = (aws, specialist) ∷ []

abbrev settings : OrchestratorSettings Micro
settings = record {
  focus_version = "1.4";
  analytics = record {
    min_absolute_change = dec 5 0;
    min_percent_change = dec 10 0;
    reconciliation_tolerance = dec 5 2;
    max_candidates_per_provider = 2;
    currency = "USD";
  };
}

abbrev knowledge : KnowledgeStore
knowledge = record { rules = []; review_max_age_days = 30; supported_focus = "1.4" }

abbrev request : InvestigationRequest
request = record {
  providers = aws ∷ azure ∷ [];
  start_date = 31;
  end_date = 32;
  comparison_start_date = 1;
  comparison_end_date = 2;
  account_ids = [];
  question = "Why?";
  scenario_id = "default";
  dataset_id = none;
  agent_mode = stub_mode;
}

abbrev now : DateRange
now = record { start = 31; end = 32 }

abbrev before : DateRange
before = record { start = 1; end = 2 }

abbrev month_start : ℕ → ℕ
month_start day = day

abbrev money : Micro → String
money x = "+12.00"

run-Publishes_example :
    Reports
      (λ (report : InvestigationReport Micro).
        All
          (IsPublishable (
            context_of settings knowledge workers "inv-1" request month_start money adapters
              report))
          report.findings
        × IsRanked report.findings
        × (report.reconciliation
            ≡ reconcile_findings report.findings report.comparison.total_absolute_change (dec 5 2)))
      (run month_start money settings knowledge workers adapters "inv-1" request)
run-Publishes_example =
    run-Publishes settings knowledge workers "inv-1" request month_start money micro_laws adapters

provider_in : Fetched (WorkerResponse Micro) → Provider
provider_in (fetched response) = response.provider
provider_in (failed_with _) = aws

asked_of : WorkerRequest Micro → Option (Client Micro) → Provider
asked_of asked none = aws
asked_of asked (some client) = provider_in (client asked)

specialist-AnswersForItself : AnswersForItself workers
unfolding get provider_in asked_of
specialist-AnswersForItself aws client found asked response same answered =
    sym (ap provider_in answered) ∙ sym (ap (asked_of asked) found) ∙ same
specialist-AnswersForItself azure client found asked response same answered = ground (arith, found)
specialist-AnswersForItself gcp client found asked response same answered = ground (arith, found)

run-Accounts_example :
    Reports
      (λ (report : InvestigationReport Micro).
        Perm (map (λ (s : ProviderStatus). s.provider) report.provider_statuses) (aws ∷ azure ∷ [])
        × All
            (Accounted workers adapters request
              (report.current_period ∷ report.baseline_period ∷ []))
            report.provider_statuses)
      (run month_start money settings knowledge workers adapters "inv-1" request)
run-Accounts_example =
    run-Accounts settings knowledge workers adapters "inv-1" request month_start money
      specialist-AnswersForItself

abbrev compared : PeriodComparison Micro
compared =
    comparison_of settings request now before (load_costs adapters request (now ∷ before ∷ []))

run_completes_example :
    is_reported (run month_start money settings knowledge workers adapters "inv-1" request) ≡ (
      any (is_available adapters request (now ∷ before ∷ [])) (aws ∷ azure ∷ [])
      && all_of
          (question_fits money compared)
          (select (is_available adapters request (now ∷ before ∷ [])) (aws ∷ azure ∷ [])))
unfolding current_period baseline_period
run_completes_example =
    run_completes settings knowledge workers adapters "inv-1" request month_start money now before
      refl refl refl

report_origin-Least_example :
    All
      (λ s. verified (report_origin (source_of aws ∷ [])) ≤ verified s.origin)
      (source_of aws ∷ [])
    × ((any (has_origin (report_origin (source_of aws ∷ []))) (source_of aws ∷ []) ≡ true)
        ⊎ (source_of aws ∷ [] ≡ []))
report_origin-Least_example = report_origin-Least (source_of aws ∷ [])
