-- ===== src/Datasets/Tests.antt =====
-- A dataset that is begun, filled and sealed, with sizes counted in records.
use cloudcause.Prelude.{
  ℕ, ◌≡◌, ◌↔◌, ◌⊎◌, true, false, refl, none, some, [], ◌∷◌, arith, string_eq, if◌then◌else◌,
}
use cloudcause.Prelude.Dict.{get}
use cloudcause.Prelude.Floats.{dec}
use cloudcause.Prelude.Micro.{Micro, micro_ops}
use cloudcause.Contracts.Common.{aws, azure}
use cloudcause.Contracts.Records.{usage, CostRecord}
use cloudcause.Datasets.Model.{cost, Dataset, in_slot, source_in, replace_source}
use cloudcause.Datasets.Store.{MemoryStore, Settings, new_dataset, total_bytes, put_dataset}
use cloudcause.Datasets.Assembly.{ParsedSource, build_source, attach, refusal, seal_dataset}
use cloudcause.Datasets.Slots.{IsConsistent, source_in-replace_source, attach-IsConsistent}
use cloudcause.Datasets.Capacity.{WithinCap, Written, put_dataset-Written}
use cloudcause.Datasets.Topology.{
  Deployment, inprocess, http, memory_store, sql_store, build_dataset_store,
  build_dataset_store_lem,
}
use cloudcause.Datasets.Sealed.{Keyed, Keeps, finish, Step-Keeps}

abbrev settings : Settings
settings = record {
  dataset_ttl_seconds = 60;
  dataset_max_records = 10;
  dataset_store_max_bytes = 100;
  upload_max_sources = 2;
}

abbrev row : CostRecord Micro
row = record {
  provider = aws;
  billing_account_id = "1";
  usage_date = 1;
  service_name = "EC2";
  service_category = "Compute";
  charge_category = usage;
  charge_description = "";
  region_id = none;
  resource_id = none;
  resource_name = none;
  sku_id = none;
  usage_quantity = dec 1 0;
  usage_unit = "hours";
  billed_cost = dec 4 0;
  effective_cost = dec 4 0;
  currency = "USD";
  tags = [];
  commitment_discount_id = none;
  source_record_id = none;
}

abbrev parsed : ParsedSource Micro
parsed = record {
  costs = row ∷ [];
  metric_count = 0;
  audit_events = [];
  resource_count = 0;
  recommendation_count = 0;
  period_start = some 1;
  period_end = some 1;
  data_through = none;
  currency = some "USD";
  stored_records = 1;
}

abbrev size : Dataset Micro → ℕ
size d = 10

abbrev begun : Dataset Micro
begun = new_dataset size 0 "d" settings

abbrev filled : Dataset Micro
filled = attach (build_source 1 aws cost parsed 20) (some "USD") begun

abbrev no_store : MemoryStore Micro
no_store = record { settings = settings; datasets = []; sizes = [] }

abbrev store : MemoryStore Micro
store = record { settings = settings; datasets = ("d", filled) ∷ []; sizes = ("d", 10) ∷ [] }

source_in-replace_source_example :
    source_in azure cost (replace_source (build_source 1 aws cost parsed 20) filled.sources) ≡ (
      if in_slot azure cost (build_source 1 aws cost parsed 20)
      then some (build_source 1 aws cost parsed 20)
      else source_in azure cost filled.sources)
source_in-replace_source_example =
    source_in-replace_source azure cost (build_source 1 aws cost parsed 20) filled.sources

accepted : refusal settings aws cost parsed begun ≡ none
unfolding refusal source_in
accepted = refl

begun-IsConsistent : IsConsistent settings begun
begun-IsConsistent = (tt, omega arith, tt)

attach-IsConsistent_example :
    IsConsistent settings (attach (build_source 1 aws cost parsed 20) parsed.currency begun)
attach-IsConsistent_example =
    attach-IsConsistent settings 1 aws cost parsed 20 begun begun-IsConsistent accepted

no_store-WithinCap : WithinCap no_store
unfolding total_bytes
no_store-WithinCap = ground arith

put_dataset-Written_example : Written filled no_store (put_dataset size filled no_store)
put_dataset-Written_example = put_dataset-Written size filled no_store no_store-WithinCap

store-Keyed : Keyed store
unfolding get attach
store-Keyed id d h = ground (arith, string_eq.same_iff "d" id)

Step-Keeps_example : Keeps store (seal_dataset size 5 6 "d" store).0
Step-Keeps_example =
    Step-Keeps size store (seal_dataset size 5 6 "d" store).0 (finish 5 6 "d" store) store-Keyed

-- workers over HTTP, and a database that does not answer
abbrev distributed : Deployment
distributed = record {
  uploads_enabled = true;
  orchestrator_mode = inprocess;
  worker_mode = http;
  database_given = true;
}

build_dataset_store_lem_example :
    ((build_dataset_store false distributed ≡ memory_store)
      ↔ ((true ≡ true) × (inprocess ≡ inprocess) × (http ≡ inprocess)))
    × ((build_dataset_store false distributed ≡ sql_store)
        ↔ ((true ≡ true) × ((inprocess ≡ http) ⊎ (http ≡ http)) × (true ≡ true) × (false ≡ true)))
build_dataset_store_lem_example = build_dataset_store_lem false distributed
