-- ===== src/Datasets/Store.antt =====
-- packages/datasets/src/cloudcause_datasets/store.py: the in-memory store, the refusals, and the choice
-- of a store. The size of a dataset's JSON is a parameter; the clock's reading is an argument.
use cloudcause.Prelude.{
  ℕ, ◌+◌, String, Bool, Option, none, some, List, [], ◌∷◌, ltb, max, string_eq, ◌==◌, if◌then◌else◌,
}
use cloudcause.Prelude.Dict.{Dict, get, put, remove}
use cloudcause.Datasets.Model.{Dataset, is_sealed, is_expired, is_some, records_in}

-- the subclasses of `DatasetError` and of `IngestError` that are raised here
pub data Refusal : Type 0 where
  unknown_dataset dataset_expired not_sealed dataset_sealed store_full too_large : Refusal
  too_many_sources no_cost_source currency_conflict uploads_unavailable : Refusal

pub data Result (A : Type 0) : Type 0 where
  ok : A → Result A
  refused : Refusal → Result A

-- the settings that the store and the assembly read
pub record Settings : Type 0 where
  pub dataset_ttl_seconds : ℕ
  pub dataset_max_records : ℕ
  pub dataset_store_max_bytes : ℕ
  pub upload_max_sources : ℕ

-- `MemoryDatasetStore`. Its locks make an operation one step and are not state.
pub record MemoryStore (Num : Type 0) : Type 0 where
  pub settings : Settings
  pub datasets : Dict String (Dataset Num)
  pub sizes : Dict String ℕ

-- sum(sizes.values()), and the same without one key
unfoldable pub total_bytes : Dict String ℕ → ℕ
total_bytes [] = 0
total_bytes ((_, size) ∷ rest) = size + total_bytes rest

unfoldable pub bytes_excluding : String → Dict String ℕ → ℕ
bytes_excluding id [] = 0
bytes_excluding id ((key, size) ∷ rest) = (if key == id then 0 else size) + bytes_excluding id rest

module _ {Num : Type 0} where
  -- `_forget`
  abbrev pub forget : String → MemoryStore Num → MemoryStore Num × Bool
  forget id m = (
    record { settings = m.settings; datasets = remove id m.datasets; sizes = remove id m.sizes },
    is_some (get id m.datasets),
  )

  -- `get`, by what the dictionary holds: an expired dataset is evicted and refused
  unfoldable pub get_found :
      ℕ → String → MemoryStore Num → Option (Dataset Num) → MemoryStore Num × Result (Dataset Num)
  unfolding get remove
  get_found now id m none = (m, refused unknown_dataset)
  get_found now id m (some d) =
      if is_expired now d then ((forget id m).0, refused dataset_expired) else (m, ok d)

  unfoldable pub get_dataset : ℕ → String → MemoryStore Num → MemoryStore Num × Result (Dataset Num)
  unfolding get_found get
  get_dataset now id m = get_found now id m (get id m.datasets)

  -- `check_capacity`
  unfoldable pub check_capacity : Dataset Num → ℕ → MemoryStore Num → Result Unit
  unfolding records_in bytes_excluding
  check_capacity d payload_bytes m =
      if ltb m.settings.dataset_max_records (records_in d.sources)
      then refused too_large
      else if ltb m.settings.dataset_store_max_bytes
          (bytes_excluding d.dataset_id m.sizes + payload_bytes)
      then refused store_full
      else ok tt

  -- `evict_expired`
  abbrev pub doomed : ℕ → Dict String (Dataset Num) → List String
  doomed now [] = []
  doomed now ((id, d) ∷ rest) = if is_expired now d then id ∷ doomed now rest else doomed now rest

  abbrev pub forget_all : List String → MemoryStore Num → MemoryStore Num
  forget_all [] m = m
  forget_all (id ∷ rest) m = forget_all rest (forget id m).0

  unfoldable pub evict_expired : ℕ → MemoryStore Num → MemoryStore Num × List String
  unfolding get remove
  evict_expired now m = (forget_all (doomed now m.datasets) m, doomed now m.datasets)

  module _ (json_size : Dataset Num → ℕ) where
    -- `put`, after the check of the capacity
    unfoldable pub put_checked :
        Dataset Num → MemoryStore Num → Result Unit → MemoryStore Num × Result Unit
    unfolding put
    put_checked d m (refused e) = (m, refused e)
    put_checked d m (ok _) = (
      record {
        settings = m.settings;
        datasets = put d.dataset_id d m.datasets;
        sizes = put d.dataset_id (json_size d) m.sizes;
      },
      ok tt,
    )

    unfoldable pub put_dataset : Dataset Num → MemoryStore Num → MemoryStore Num × Result Unit
    unfolding check_capacity put_checked
    put_dataset d m = put_checked d m (check_capacity d (json_size d) m)

    -- the answer of an operation that ends with a write
    abbrev pub answer :
        Dataset Num → MemoryStore Num × Result Unit → MemoryStore Num × Result (Dataset Num)
    answer d (m, refused e) = (m, refused e)
    answer d (m, ok _) = (m, ok d)

    abbrev pub new_dataset : ℕ → String → Settings → Dataset Num
    new_dataset now id settings = record {
      dataset_id = id;
      created_at = now;
      expires_at = now + max settings.dataset_ttl_seconds 1;
      sealed_at = none;
      sources = [];
      currency = none;
    }

    -- `DatasetStore.create`, with the new id that `new_id` draws
    unfoldable pub create : ℕ → String → MemoryStore Num → MemoryStore Num × Result (Dataset Num)
    unfolding evict_expired put_dataset
    create now new_id m =
        let d = new_dataset now new_id m.settings in
        answer d (put_dataset d (evict_expired now m).0)

    abbrev pub with_seal : ℕ → Dataset Num → Dataset Num
    with_seal now d = record {
      dataset_id = d.dataset_id;
      created_at = d.created_at;
      expires_at = d.expires_at;
      sealed_at = some now;
      sources = d.sources;
      currency = d.currency;
    }

    -- `DatasetStore.seal`, after its look-up
    unfoldable pub seal_found :
        ℕ → MemoryStore Num × Result (Dataset Num) → MemoryStore Num × Result (Dataset Num)
    unfolding put_dataset
    seal_found now (m, refused e) = (m, refused e)
    seal_found now (m, ok d) =
        if is_sealed d
        then (m, ok d)
        else answer (with_seal now d) (put_dataset (with_seal now d) m)

    unfoldable pub seal : ℕ → String → MemoryStore Num → MemoryStore Num × Result (Dataset Num)
    unfolding get_dataset seal_found
    seal now id m = seal_found now (get_dataset now id m)

  -- `get_for_investigation`
  unfoldable pub get_for_investigation :
      ℕ → String → MemoryStore Num → MemoryStore Num × Result (Dataset Num)
  unfolding get_dataset
  get_for_investigation now id m =
      let (m1, r) = get_dataset now id m in
      elim r as (λ _. MemoryStore Num × Result (Dataset Num)) [
        | refused e ↦ (m1, refused e)
        | ok d ↦ if is_sealed d then (m1, ok d) else (m1, refused not_sealed)
      ]
