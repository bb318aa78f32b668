-- ===== src/Orchestrator/Load.antt =====
-- orchestrator.py: `Orchestrator._load_costs`. The adapters of the providers are an interface: each
-- gives its costs with their provenance and its resources, or an error. Progress events only inform.
use cloudcause.Prelude.{
  String, Option, none, some, List, [], ◌∷◌, ◌++◌, map, string_eq, ◌==◌, if◌then◌else◌,
}
use cloudcause.Prelude.Dict.{Dict, put}
use cloudcause.Contracts.Common.{Provider, provider_eq, DateRange, fixture}
use cloudcause.Contracts.Investigation.{ProviderStatus, worker_skipped, stub_mode}
use cloudcause.Contracts.Records.{CostRecord, CloudResource}
use cloudcause.Contracts.Report.{Fetched, fetched, failed_with}
use cloudcause.Contracts.Request.{Provenance, InvestigationRequest}
use cloudcause.Focus.Normalizer.{filter_records, included_charge_categories}

pub record ProviderData (Num : Type 0) : Type 0 where
  pub items : List (CostRecord Num)
  pub provenance : Provenance
  pub resources : List CloudResource

-- `get_data_provider` and the two reads, for a provider, a scenario and a dataset
abbrev pub Adapters : Type 0 → Type 0
Adapters Num = Provider → String → Option String → List DateRange → Fetched (ProviderData Num)

-- the local variables of the loop
pub record Loaded (Num : Type 0) : Type 0 where
  pub records : List (CostRecord Num)
  pub sources : List Provenance
  pub known_ids : Dict Provider (List String)
  pub unavailable : List ProviderStatus

abbrev pub skipped : Provider → String → ProviderStatus
skipped provider reason = record {
  provider = provider;
  status = worker_skipped;
  message = reason;
  data_through = none;
  origin = fixture;
  finding_count = 0;
  agent_mode = stub_mode;
}

module _ {Num : Type 0} where
  abbrev pub nothing_loaded : Loaded Num
  nothing_loaded = record { records = []; sources = []; known_ids = []; unavailable = [] }

  -- the ids that the provider's own data names
  abbrev ids_of : List (CostRecord Num) → List String
  ids_of [] = []
  ids_of (r ∷ rest) = elim r.resource_id [
    | none ↦ ids_of rest
    | some id ↦ if id == "" then ids_of rest else id ∷ ids_of rest
  ]

  abbrev known_of : ProviderData Num → List String
  known_of d = ids_of d.items ++ map (λ (c : CloudResource). c.resource_id) d.resources

  -- the body of the loop, from what the adapter gave
  unfoldable pub add_loaded :
      Provider → List String → List DateRange → Fetched (ProviderData Num) → Loaded Num → Loaded Num
  unfolding filter_records put
  add_loaded provider account_ids periods (failed_with reason) l = record l {
    unavailable = l.unavailable ++ skipped provider reason ∷ [];
  }
  add_loaded provider account_ids periods (fetched d) l = record l {
    records =
        l.records
        ++ filter_records periods (provider ∷ []) account_ids included_charge_categories d.items;
    sources = l.sources ++ d.provenance ∷ [];
    known_ids = put provider (known_of d) l.known_ids;
  }

  unfoldable pub load_from :
      Adapters Num → InvestigationRequest → List DateRange → List Provider → Loaded Num → Loaded Num
  unfolding add_loaded
  load_from adapters request periods [] l = l
  load_from adapters request periods (p ∷ rest) l = load_from adapters request periods rest (
      add_loaded p request.account_ids periods
        (adapters p request.scenario_id request.dataset_id periods) l)

  -- `_load_costs`
  unfoldable pub load_costs : Adapters Num → InvestigationRequest → List DateRange → Loaded Num
  unfolding load_from
  load_costs adapters request periods =
      load_from adapters request periods request.providers nothing_loaded
