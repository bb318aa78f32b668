-- ===== src/Orchestrator/Statuses.antt =====
-- orchestrator.py: every provider that was asked for is accounted for.
use mathlib.Core.List.{Perm}
use cloudcause.Prelude.{
  ℕ, ◌≡◌, refl, sym, ◌∙◌, subst, String, Option, none, some, List, [], ◌∷◌, map, if-holds, inr, inl,
  true, All, All-append, All-implies, All-select,
}
use cloudcause.Prelude.Dict.{Dict, get}
use cloudcause.Prelude.Floats.{FloatOps}
use cloudcause.Contracts.Common.{Provider, provider_eq, DateRange}
use cloudcause.Contracts.Analytics.{PeriodComparison, for_provider}
use cloudcause.Contracts.Request.{InvestigationRequest}
use cloudcause.Contracts.Report.{
  ProviderTask, InvestigationPlan, WorkerRequest, WorkerResponse, InvestigationReport,
}
use cloudcause.Knowledge.Store.{KnowledgeStore}
use cloudcause.Orchestrator.Load.{Adapters, Loaded, load_costs}
use cloudcause.Contracts.Report.{Fetched, fetched, failed_with}
use cloudcause.Orchestrator.Planner.{
  fits, task_for, checked_task, add_task, build_tasks, plan_of, build_plan,
}
use cloudcause.Orchestrator.Responses.{
  Client, answer_of, ask, worker_request, call, investigate, active_providers, status_of,
}
use cloudcause.Orchestrator.Run.{OrchestratorSettings, comparison_of, report_of, run}
use cloudcause.Orchestrator.Publish.{Reports, run-Reports}
use cloudcause.Contracts.Investigation.{ProviderStatus}
use cloudcause.Orchestrator.Accounted.{
  All-of_map, FromWorker, Accounted, load_costs-Skipped, call-FromWorker,
}
use cloudcause.Orchestrator.Available.{
  providers_of_statuses, is_available, partition-Perm, map-append, load_costs-unavailable,
  active_providers-available,
}

-- a worker answers for the provider that it was asked about
abbrev pub AnswersForItself : {Num : Type 0} → Dict Provider (Client Num) → Type 0
AnswersForItself {Num} workers =
    (p : Provider) (client : Client Num)
    → get p workers ≡ some client
    → (asked : WorkerRequest Num) (response : WorkerResponse Num) → asked.provider ≡ p
    → client asked ≡ fetched response
    → response.provider ≡ p

module _ {Num : Type 0} ⦃F : FloatOps Num⦄ (workers : Dict Provider (Client Num)) (id : String)
    (request : InvestigationRequest) (comparison : PeriodComparison Num)
    (h : AnswersForItself workers) where
  call-provider :
      (task : ProviderTask Num) → (call workers id request comparison task).provider ≡ task.provider
  unfolding call
  call-provider task = at_client (get task.provider workers) refl
    where
      answered :
          (client : Client Num) (asked : WorkerRequest Num) (o : Fetched (WorkerResponse Num))
          → get task.provider workers ≡ some client
          → asked.provider ≡ task.provider
          → client asked ≡ o
          → (answer_of id task.provider o).provider ≡ task.provider
      answered client asked (fetched response) k same eq =
          h task.provider client k asked response same eq
      answered client asked (failed_with message) k same eq = refl

      at_client :
          (o : Option (Client Num))
          → get task.provider workers ≡ o
          → (ask id request comparison task o).provider ≡ task.provider
      at_client none eq = refl
      at_client (some client) eq =
          answered client (worker_request id request comparison task) _ eq refl refl

  statuses-providers :
      (tasks : List (ProviderTask Num))
      → providers_of_statuses (map status_of (investigate workers id request comparison tasks))
        ≡ map (λ (t : ProviderTask Num). t.provider) tasks
  unfolding investigate status_of
  statuses-providers [] = refl
  statuses-providers (t ∷ ts) = cc (call-provider t, statuses-providers ts)

  statuses-Accounted :
      (adapters : Adapters Num) (periods : List DateRange) (tasks : List (ProviderTask Num))
      → All
          (λ (t : ProviderTask Num). is_available adapters request periods t.provider ≡ true)
          tasks
      → All
          (Accounted workers adapters request periods)
          (map status_of (investigate workers id request comparison tasks))
  unfolding investigate status_of
  statuses-Accounted adapters periods [] k = tt
  statuses-Accounted adapters periods (t ∷ ts) k =
      let same = sym (call-provider t) in
      let status : ProviderStatus = status_of (call workers id request comparison t) in
      (
        inr (
          subst (λ p. is_available adapters request periods p ≡ true) same k.0,
          subst (λ p. FromWorker request p (get p workers) status) same
              (call-FromWorker workers adapters request periods id comparison t),
        ),
        statuses-Accounted adapters periods ts k.1,
      )

-- the tasks of a plan, if there is one, are for the given providers
abbrev IsFor : {Num : Type 0} → Provider → Option (ProviderTask Num) → Type 0
IsFor p none = Unit
IsFor p (some t) = t.provider ≡ p

abbrev AreFor : {Num : Type 0} → List Provider → Option (List (ProviderTask Num)) → Type 0
AreFor ps none = Unit
AreFor ps (some tasks) = map (λ t. t.provider) tasks ≡ ps

abbrev PlansFor : {Num : Type 0} → List Provider → Option (InvestigationPlan Num) → Type 0
PlansFor ps none = Unit
PlansFor ps (some plan) = map (λ t. t.provider) plan.tasks ≡ ps

module _ {Num : Type 0} (money : Num → String) where
  add_task-AreFor :
      (p : Provider) (ps : List Provider) (o : Option (ProviderTask Num))
      (os : Option (List (ProviderTask Num)))
      → IsFor p o
      → AreFor ps os
      → AreFor (p ∷ ps) (add_task money o os)
  add_task-AreFor p ps (some t) (some ts) h k = cc (h, k)
  add_task-AreFor p ps (some t) none h k = tt
  add_task-AreFor p ps none os h k = tt

  build_tasks-AreFor :
      (ps : List Provider) (comparison : PeriodComparison Num)
      → AreFor ps (build_tasks money ps comparison)
  unfolding build_tasks task_for checked_task
  build_tasks-AreFor [] comparison = refl
  build_tasks-AreFor (p ∷ ps) comparison =
      add_task-AreFor p ps _ (build_tasks money ps comparison)
        (if-holds (IsFor p) (fits money (task_for money p (for_provider p comparison)).question)
          refl tt)
        (build_tasks-AreFor ps comparison)

  build_plan-PlansFor :
      (id : String) (request : InvestigationRequest) (current baseline : DateRange)
      (comparison : PeriodComparison Num) (ps : List Provider)
      → PlansFor ps (build_plan money id request current baseline comparison ps)
  unfolding build_plan
  build_plan-PlansFor id request current baseline comparison ps =
      planned (build_tasks money ps comparison) (build_tasks-AreFor ps comparison)
    where
      planned :
          (o : Option (List (ProviderTask Num)))
          → AreFor ps o
          → PlansFor ps (plan_of money id request current baseline o)
      planned none h = tt
      planned (some tasks) h = h

-- A report has one status for each time that a provider was asked for. A provider whose data could not
-- be loaded is skipped, with no findings. Every other one has the status, the message and the number of
-- findings that its worker answered when it was asked for this request; or it has failed, with the
-- worker's error, if the worker did; or it is skipped if no worker is configured for it. Each worker
-- that answers is taken to answer for the provider that it was asked about.
pub run-Accounts :
    {Num : Type 0} ⦃F : FloatOps Num⦄ (settings : OrchestratorSettings Num)
    (knowledge : KnowledgeStore) (workers : Dict Provider (Client Num)) (adapters : Adapters Num)
    (id : String) (request : InvestigationRequest) (month_start : ℕ → ℕ) (money : Num → String)
    → AnswersForItself workers
    → Reports
        (λ (report : InvestigationReport Num).
          Perm (providers_of_statuses report.provider_statuses) request.providers
          × All
              (Accounted workers adapters request
                (report.current_period ∷ report.baseline_period ∷ []))
              report.provider_statuses)
        (run month_start money settings knowledge workers adapters id request)
unfolding report_of
run-Accounts {Num} settings knowledge workers adapters id request month_start money h =
    run-Reports settings knowledge workers id request month_start money adapters _
      (λ current baseline plan eq.
        let periods : List DateRange = current ∷ baseline ∷ [] in
        let loaded : Loaded Num = load_costs adapters request periods in
        let comparison : PeriodComparison Num =
          comparison_of settings request current baseline loaded in
        let planned : map (λ t. t.provider) plan.tasks
            ≡ active_providers loaded.unavailable request.providers =
          subst (PlansFor (active_providers loaded.unavailable request.providers)) eq (
            build_plan-PlansFor money id request current baseline comparison
              (active_providers loaded.unavailable request.providers)) in
        let available = active_providers-available adapters request periods in
        (
          subst (λ ps. Perm ps request.providers)
              (sym (
                map-append loaded.unavailable
                  (map status_of (investigate workers id request comparison plan.tasks))
                ∙ cc (
                  load_costs-unavailable adapters request periods,
                  statuses-providers workers id request comparison h plan.tasks,
                  planned,
                  available,
                )))
              (partition-Perm (is_available adapters request periods) request.providers),
          All-append (Accounted workers adapters request periods) loaded.unavailable _
              (All-implies _ _ loaded.unavailable (λ s k. inl k)
                (load_costs-Skipped workers adapters request periods))
              (statuses-Accounted workers id request comparison h adapters periods plan.tasks (
                All-of_map (λ p. is_available adapters request periods p ≡ true) _ plan.tasks
                  (subst (All (λ p. is_available adapters request periods p ≡ true))
                    (sym (planned ∙ available))
                    (All-select (is_available adapters request periods) request.providers)))),
        ))
