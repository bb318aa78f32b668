-- ===== src/Orchestrator/Accounted.antt =====
-- orchestrator.py: what the status of a provider in a report says, from what its adapter and its worker
-- gave.
use cloudcause.Prelude.{
  ◌≡◌, refl, ◌⊎◌, true, false, String, Option, none, some, List, [], ◌∷◌, map, length, All,
  All-append,
}
use cloudcause.Prelude.Dict.{Dict, get}
use cloudcause.Contracts.Common.{Provider, provider_eq, DateRange}
use cloudcause.Contracts.Analytics.{PeriodComparison}
use cloudcause.Contracts.Investigation.{ProviderStatus, worker_skipped, worker_failed}
use cloudcause.Contracts.Request.{InvestigationRequest}
use cloudcause.Contracts.Report.{
  ProviderTask, WorkerRequest, WorkerResponse, Fetched, fetched, failed_with,
}
use cloudcause.Orchestrator.Load.{
  ProviderData, Adapters, Loaded, nothing_loaded, add_loaded, load_from, load_costs,
}
use cloudcause.Orchestrator.Responses.{Client, answer_of, ask, worker_request, call, status_of}
use cloudcause.Orchestrator.Available.{gave_data, is_available}

pub All-of_map :
    {A B : Type 0} (P : B → Type 0) (f : A → B) (xs : List A)
    → All P (map f xs)
    → All (λ x. P (f x)) xs
All-of_map P f [] h = tt
All-of_map P f (x ∷ xs) h = (h.0, All-of_map P f xs h.1)

module _ {Num : Type 0} where
  -- the status tells of the answer of a worker, or of its failure
  abbrev pub Tells : Fetched (WorkerResponse Num) → ProviderStatus → Type 0
  Tells (fetched response) s =
      (s.status ≡ response.status)
      × (s.message ≡ response.message)
      × (s.finding_count ≡ length response.findings)
  Tells (failed_with message) s =
      (s.status ≡ worker_failed) × (s.message ≡ message) × (s.finding_count ≡ 0)

  -- the status of a provider whose worker was asked for this request, or that has none
  abbrev pub FromWorker :
      InvestigationRequest → Provider → Option (Client Num) → ProviderStatus → Type 0
  FromWorker request p none s = (s.status ≡ worker_skipped) × (s.finding_count ≡ 0)
  FromWorker request p (some client) s =
      (asked : WorkerRequest Num) × (asked.provider ≡ p)
      × (asked.request ≡ request)
      × Tells (client asked) s

  module _ (workers : Dict Provider (Client Num)) (adapters : Adapters Num)
      (request : InvestigationRequest) (periods : List DateRange) where
    abbrev pub Skipped : ProviderStatus → Type 0
    Skipped s =
        (is_available adapters request periods s.provider ≡ false)
        × (s.status ≡ worker_skipped)
        × (s.finding_count ≡ 0)

    -- a provider whose data could not be loaded is skipped, and every other one has its worker's status
    abbrev pub Accounted : ProviderStatus → Type 0
    Accounted s =
        Skipped s
        ⊎ ((is_available adapters request periods s.provider ≡ true)
            × FromWorker request s.provider (get s.provider workers) s)

    load_from-Skipped :
        (ps : List Provider) (l : Loaded Num)
        → All Skipped l.unavailable
        → All Skipped (load_from adapters request periods ps l).unavailable
    unfolding load_from add_loaded
    load_from-Skipped [] l h = h
    load_from-Skipped (p ∷ ps) l h =
        load_from-Skipped ps _
          (added (adapters p request.scenario_id request.dataset_id periods) refl)
      where
        added :
            (o : Fetched (ProviderData Num))
            → is_available adapters request periods p ≡ gave_data o
            → All Skipped (add_loaded p request.account_ids periods o l).unavailable
        added (fetched d) e = h
        added (failed_with reason) e = All-append Skipped l.unavailable _ h ((e, refl, refl), tt)

    pub load_costs-Skipped : All Skipped (load_costs adapters request periods).unavailable
    unfolding load_costs
    load_costs-Skipped = load_from-Skipped request.providers nothing_loaded tt

    pub call-FromWorker :
        (id : String) (comparison : PeriodComparison Num) (task : ProviderTask Num)
        → FromWorker request task.provider
            (get task.provider workers)
            (status_of (call workers id request comparison task))
    unfolding call status_of
    call-FromWorker id comparison task = at_client (get task.provider workers)
      where
        told :
            (o : Fetched (WorkerResponse Num)) → Tells o (status_of (answer_of id task.provider o))
        told (fetched response) = (refl, refl, refl)
        told (failed_with message) = (refl, refl, refl)

        at_client :
            (o : Option (Client Num))
            → FromWorker request task.provider o (status_of (ask id request comparison task o))
        at_client none = (refl, refl)
        at_client (some client) = (worker_request id request comparison task, refl, refl, told _)
