-- ===== src/Orchestrator/Workers.antt =====
-- workers.py: the clients of `build_worker_clients` where every specialist runs in this process. An
-- investigator's context and live attempts are given for each request.
use cloudcause.Prelude.{◌≡◌, refl, sym, ◌∙◌, ap, String, Option, none, some, List, [], ◌∷◌}
use cloudcause.Prelude.Dict.{Dict, get}
use cloudcause.Prelude.Floats.{FloatOps}
use cloudcause.Contracts.Common.{Provider, aws, azure, gcp, provider_eq}
use cloudcause.Contracts.Analytics.{AnomalyCandidate}
use cloudcause.Contracts.Investigation.{EvidenceItem, Finding}
use cloudcause.Contracts.Report.{Fetched, fetched, failed_with, WorkerRequest, WorkerResponse}
use cloudcause.Playbooks.Spec.{PlaybookSpec}
use cloudcause.Worker.Engine.{
  Investigator, EngineContext, investigate_provider, investigate_provider-provider,
}
use cloudcause.Orchestrator.Responses.{Client}
use cloudcause.Orchestrator.Statuses.{AnswersForItself}

module _ {Num : Type 0} ⦃F : FloatOps Num⦄ (lower : String → String)
    (gather : AnomalyCandidate Num → PlaybookSpec Num → List (EvidenceItem Num))
    (investigator : Provider → Investigator Num)
    (context : Provider → WorkerRequest Num → Fetched (EngineContext Num))
    (live : Provider → WorkerRequest Num → Fetched (List (Finding Num))) where
  -- `InProcessWorkerClient.investigate`
  abbrev pub in_process_client : Provider → Client Num
  in_process_client p asked =
      fetched
        (investigate_provider lower gather (investigator p) asked (context p asked) (live p asked))

  -- `build_worker_clients`
  abbrev pub build_worker_clients : Dict Provider (Client Num)
  build_worker_clients =
      (gcp, in_process_client gcp)
      ∷ (aws, in_process_client aws)
      ∷ (azure, in_process_client azure)
      ∷ []

  provider_in : Provider → Fetched (WorkerResponse Num) → Provider
  provider_in p (fetched response) = response.provider
  provider_in p (failed_with _) = p

  asked_of : Provider → WorkerRequest Num → Option (Client Num) → Provider
  asked_of p asked none = p
  asked_of p asked (some client) = provider_in p (client asked)

  found_client : (p : Provider) → get p build_worker_clients ≡ some (in_process_client p)
  unfolding get
  found_client aws = refl
  found_client azure = refl
  found_client gcp = refl

  -- In one process every specialist answers for the provider that it is asked about.
  pub build_worker_clients-AnswersForItself :
      ((p : Provider) → (investigator p).provider ≡ p) → AnswersForItself build_worker_clients
  unfolding provider_in asked_of
  build_worker_clients-AnswersForItself h p client found asked response same answered =
      sym (ap (provider_in p) answered)
      ∙ sym (ap (asked_of p asked) (sym (found_client p) ∙ found))
      ∙ investigate_provider-provider lower gather (investigator p) asked (context p asked)
          (live p asked)
      ∙ h p
