-- ===== src/Orchestrator/Responses.antt =====
-- orchestrator.py: `Orchestrator._investigate`, and what `_run` collects from the responses. The tasks of
-- the workers are independent, and `gather` keeps their order.
use cloudcause.Prelude.{
  ℕ, String, Bool, true, false, not, Option, none, some, List, [], ◌∷◌, ◌++◌, map, select, any,
  length, string_eq, ltb, ◌==◌, if◌then◌else◌,
}
use cloudcause.Prelude.Text.{◌+++◌}
use cloudcause.Anomaly.Compare.{provider_name}
use cloudcause.Prelude.Dict.{Dict, get, put}
use cloudcause.Prelude.Extremes.{min_by, min_from}
use cloudcause.Contracts.Common.{Provider, aws, azure, gcp, provider_eq, fixture}
use cloudcause.Contracts.Analytics.{
  PeriodComparison, ProviderComparison, Reconciliation, candidates_for,
}
use cloudcause.Contracts.Investigation.{
  WorkerStatus, worker_ok, worker_partial, worker_failed, worker_skipped, stub_mode, Finding,
  ProviderStatus, RuleCitation, is_nonempty,
}
use cloudcause.Contracts.Request.{Provenance, InvestigationRequest}
use cloudcause.Contracts.Report.{
  ProviderTask, WorkerRequest, WorkerResponse, ReportWarning, skipped_provider, worker_warning,
  findings_dropped, sources_missing, unattributed_change, review_overdue_for,
}
use cloudcause.Evidence.Checks.{missing_cause_sources}
use cloudcause.Contracts.Report.{Fetched, fetched, failed_with}

-- a worker client: what the specialist answers, or the exception of the call
abbrev pub Client : Type 0 → Type 0
Client Num = WorkerRequest Num → Fetched (WorkerResponse Num)

abbrev provider_rank : Provider → ℕ
provider_rank aws = 0
provider_rank azure = 1
provider_rank gcp = 2

abbrev pub provider_before : Provider → Provider → Bool
provider_before a b = ltb (provider_rank a) (provider_rank b)

-- the providers that are left, in the order of the request
abbrev pub has_status : List ProviderStatus → Provider → Bool
has_status statuses provider = any (λ (s : ProviderStatus). s.provider == provider) statuses

abbrev pub active_providers : List ProviderStatus → List Provider → List Provider
active_providers unavailable providers = select (λ p. not (has_status unavailable p)) providers

abbrev has_worked : WorkerStatus → Bool
has_worked worker_ok = true
has_worked worker_partial = true
has_worked _ = false

module _ {Num : Type 0} where
  abbrev pub without_findings : String → Provider → WorkerStatus → String → WorkerResponse Num
  without_findings investigation_id provider status message = record {
    investigation_id = investigation_id;
    provider = provider;
    status = status;
    findings = [];
    sources = [];
    warnings = [];
    available_source_types = [];
    agent_mode = stub_mode;
    data_origin = fixture;
    message = message;
  }

  abbrev pub answer_of : String → Provider → Fetched (WorkerResponse Num) → WorkerResponse Num
  answer_of investigation_id provider (fetched response) = response
  answer_of investigation_id provider (failed_with message) =
      without_findings investigation_id provider worker_failed message

  abbrev pub worker_request :
      String → InvestigationRequest → PeriodComparison Num → ProviderTask Num → WorkerRequest Num
  worker_request investigation_id request comparison task = record {
    investigation_id = investigation_id;
    provider = task.provider;
    request = request;
    task = task;
    candidates = candidates_for task.provider comparison;
  }

  abbrev pub ask :
      String
      → InvestigationRequest
      → PeriodComparison Num
      → ProviderTask Num
      → Option (Client Num)
      → WorkerResponse Num
  ask investigation_id request comparison task none =
      without_findings investigation_id task.provider worker_skipped
        ("no worker configured for " +++ provider_name task.provider)
  ask investigation_id request comparison task (some client) =
      answer_of investigation_id task.provider
        (client (worker_request investigation_id request comparison task))

  -- `call` of `_investigate`
  unfoldable pub call :
      Dict Provider (Client Num)
      → String
      → InvestigationRequest
      → PeriodComparison Num
      → ProviderTask Num
      → WorkerResponse Num
  unfolding get
  call workers investigation_id request comparison task =
      ask investigation_id request comparison task (get task.provider workers)

  -- `_investigate`
  unfoldable pub investigate :
      Dict Provider (Client Num)
      → String
      → InvestigationRequest
      → PeriodComparison Num
      → List (ProviderTask Num)
      → List (WorkerResponse Num)
  unfolding call
  investigate workers investigation_id request comparison tasks =
      map (call workers investigation_id request comparison) tasks

  -- what the loop over the responses collects
  unfoldable pub findings_of : List (WorkerResponse Num) → List (Finding Num)
  findings_of [] = []
  findings_of (r ∷ rest) = r.findings ++ findings_of rest

  abbrev pub sources_of_responses : List (WorkerResponse Num) → List Provenance
  sources_of_responses [] = []
  sources_of_responses (r ∷ rest) = r.sources ++ sources_of_responses rest

  abbrev pub warnings_of : List (WorkerResponse Num) → List (ReportWarning Num)
  warnings_of [] = []
  warnings_of (r ∷ rest) = map (λ w. worker_warning r.provider w) r.warnings ++ warnings_of rest

  unfoldable pub available_from_responses :
      List (WorkerResponse Num) → Dict Provider (List String) → Dict Provider (List String)
  unfolding put
  available_from_responses [] d = d
  available_from_responses (r ∷ rest) d =
      available_from_responses rest
        (if has_worked r.status then put r.provider r.available_source_types d else d)

  unfoldable pub status_of : WorkerResponse Num → ProviderStatus
  unfolding min_from
  status_of r = record {
    provider = r.provider;
    status = r.status;
    message = r.message;
    data_through = min_by (λ day. day) (map (λ (s : Provenance). s.data_through) r.sources);
    origin = r.data_origin;
    finding_count = length r.findings;
    agent_mode = r.agent_mode;
  }

  abbrev pub skip_warnings : List ProviderStatus → List (ReportWarning Num)
  skip_warnings statuses =
      map (λ (s : ProviderStatus). skipped_provider s.provider s.message) statuses

  abbrev pub drop_warning : ℕ → List (ReportWarning Num)
  drop_warning dropped = if ltb 0 dropped then findings_dropped dropped ∷ [] else []

  abbrev pub missing_warnings : List (Provider × List String) → List (ReportWarning Num)
  missing_warnings [] = []
  missing_warnings ((p, available) ∷ rest) =
      (if is_nonempty (missing_cause_sources available)
        then sources_missing p (missing_cause_sources available) ∷ []
        else [])
      ++ missing_warnings rest

  abbrev pub tolerance_warning : Reconciliation Num → List (ReportWarning Num)
  tolerance_warning r =
      if r.within_tolerance then [] else unattributed_change r.unattributed_change r.tolerance ∷ []

  abbrev pub stale_warning : List String → List (ReportWarning Num)
  stale_warning ids = if is_nonempty ids then review_overdue_for ids ∷ [] else []

  abbrev pub citations_of : List (Finding Num) → List RuleCitation
  citations_of [] = []
  citations_of (f ∷ rest) = f.applied_rules ++ citations_of rest

  abbrev pub currency_of : List (ProviderComparison Num) → String
  currency_of [] = "USD"
  currency_of (c ∷ _) = c.currency
