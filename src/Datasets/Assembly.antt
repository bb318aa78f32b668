-- ===== src/Datasets/Assembly.antt =====
-- packages/datasets/src/cloudcause_datasets/assembly.py: adding an upload to a dataset, and sealing it.
-- What the parser made of the file is an argument.
use cloudcause.Prelude.{
  ℕ, String, Bool, false, not, ◌&&◌, Option, none, some, List, any, length, leb, string_eq, ◌==◌,
  if◌then◌else◌,
}
use cloudcause.Contracts.Common.{Provider}
use cloudcause.Contracts.Investigation.{truthy, is_nonempty}
use cloudcause.Contracts.Records.{CostRecord, AuditEvent}
use cloudcause.Datasets.Model.{
  Kind, kind_eq, cost, Source, Dataset, is_sealed, is_some, source_in, replace_source,
}
use cloudcause.Datasets.Store.{
  MemoryStore, Settings, Refusal, Result, ok, refused, too_many_sources, no_cost_source,
  currency_conflict, dataset_sealed, get_dataset, put_dataset, seal, answer,
}

-- `ParsedSource`, the fields that the assembly reads
pub record ParsedSource (Num : Type 0) : Type 0 where
  pub costs : List (CostRecord Num)
  pub metric_count : ℕ
  pub audit_events : List AuditEvent
  pub resource_count : ℕ
  pub recommendation_count : ℕ
  pub period_start : Option ℕ
  pub period_end : Option ℕ
  pub data_through : Option ℕ
  pub currency : Option String
  pub stored_records : ℕ

-- both are given and they differ
abbrev pub conflicts : Option String → Option String → Bool
conflicts (some a) (some b) = truthy (some a) && truthy (some b) && not (a == b)
conflicts _ _ = false

module _ {Num : Type 0} where
  -- `build_source`
  unfoldable pub build_source : ℕ → Provider → Kind → ParsedSource Num → ℕ → Source Num
  build_source now provider kind parsed byte_size = record {
    summary = record {
      provider = provider;
      kind = kind;
      received_at = now;
      stored_records = parsed.stored_records;
      period_start = parsed.period_start;
      period_end = parsed.period_end;
      data_through = some (elim parsed.data_through [ none ↦ now | some t ↦ t ]);
      currency = parsed.currency;
      byte_size = byte_size;
    };
    costs = parsed.costs;
    metric_count = parsed.metric_count;
    audit_events = parsed.audit_events;
    resource_count = parsed.resource_count;
    recommendation_count = parsed.recommendation_count;
  }

  -- the dataset with the source in its slot and the currency of the file
  unfoldable pub attach : Source Num → Option String → Dataset Num → Dataset Num
  unfolding replace_source
  attach source currency d = record {
    dataset_id = d.dataset_id;
    created_at = d.created_at;
    expires_at = d.expires_at;
    sealed_at = d.sealed_at;
    sources = replace_source source d.sources;
    currency = if truthy currency then currency else d.currency;
  }

  -- the refusals of `add_source`, in its order
  unfoldable pub refusal :
      Settings → Provider → Kind → ParsedSource Num → Dataset Num → Option Refusal
  unfolding source_in
  refusal settings provider kind parsed d =
      if is_sealed d
      then some dataset_sealed
      else if not (is_some (source_in provider kind d.sources))
          && leb settings.upload_max_sources (length d.sources)
      then some too_many_sources
      else if conflicts parsed.currency d.currency
      then some currency_conflict
      else none

  module _ (json_size : Dataset Num → ℕ) where
    -- `add_source` after its look-up and its tests, whose outcome is the second argument
    unfoldable pub add_tested :
        ℕ
        → Provider
        → Kind
        → ParsedSource Num
        → ℕ
        → Option Refusal
        → Dataset Num
        → MemoryStore Num
        → MemoryStore Num × Result (Dataset Num)
    unfolding put_dataset build_source attach
    add_tested now provider kind parsed byte_size (some e) d m = (m, refused e)
    add_tested now provider kind parsed byte_size none d m =
        let updated = attach (build_source now provider kind parsed byte_size) parsed.currency d in
        answer json_size updated (put_dataset json_size updated m)

    unfoldable pub add_found :
        ℕ
        → Settings
        → Provider
        → Kind
        → ParsedSource Num
        → ℕ
        → MemoryStore Num × Result (Dataset Num)
        → MemoryStore Num × Result (Dataset Num)
    unfolding add_tested refusal
    add_found now settings provider kind parsed byte_size (m, refused e) = (m, refused e)
    add_found now settings provider kind parsed byte_size (m, ok d) =
        add_tested now provider kind parsed byte_size (refusal settings provider kind parsed d) d m

    -- `add_source`, whose report is drawn from the dataset that is returned
    unfoldable pub add_source :
        ℕ
        → Settings
        → String
        → Provider
        → Kind
        → ParsedSource Num
        → ℕ
        → MemoryStore Num
        → MemoryStore Num × Result (Dataset Num)
    unfolding get_dataset add_found
    add_source now settings id provider kind parsed byte_size m =
        add_found now settings provider kind parsed byte_size (get_dataset now id m)

    abbrev pub has_costs : List (Source Num) → Bool
    has_costs sources =
        any (λ (s : Source Num). (s.summary.kind == cost) && is_nonempty s.costs) sources

    -- `seal_dataset`, whose second look at the dataset, in `seal`, reads the clock `later`
    unfoldable pub seal_complete :
        ℕ → String → MemoryStore Num × Result (Dataset Num) → MemoryStore Num × Result (Dataset Num)
    unfolding seal
    seal_complete later id (m, refused e) = (m, refused e)
    seal_complete later id (m, ok d) =
        if is_sealed d
        then (m, ok d)
        else if has_costs d.sources
        then seal json_size later id m
        else (m, refused no_cost_source)

    unfoldable pub seal_dataset :
        ℕ → ℕ → String → MemoryStore Num → MemoryStore Num × Result (Dataset Num)
    unfolding get_dataset seal_complete
    seal_dataset now later id m = seal_complete later id (get_dataset now id m)
