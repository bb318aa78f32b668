-- ===== src/Datasets/Model.antt =====
-- packages/datasets/src/cloudcause_datasets/models.py: a dataset and its sources.
use cloudcause.Prelude.{
  ℕ, ◌+◌, ◌≡◌, ◌↔◌, String, Bool, true, false, ◌&&◌, Option, none, some, List, [], ◌∷◌, ◌++◌, map,
  select, length, contains, min, max, leb, Eq, nat_eq, string_eq, ◌==◌, arith, if◌then◌else◌,
}
use cloudcause.Prelude.Dict.{Dict, get, put, get_or}
use cloudcause.Prelude.Sorting.{sort_by}
use cloudcause.Prelude.Text.{text_lt}
use cloudcause.Contracts.Common.{Provider, provider_eq, DateRange, date_range}
use cloudcause.Contracts.Records.{CostRecord, AuditEvent}

-- `DatasetSourceKind`
pub data Kind : Type 0 where
  cost metrics audit inventory recommendations : Kind

abbrev kind_beq : Kind → Kind → Bool
kind_beq cost cost = true
kind_beq metrics metrics = true
kind_beq audit audit = true
kind_beq inventory inventory = true
kind_beq recommendations recommendations = true
kind_beq _ _ = false

pub kind_beq_iff : (a b : Kind) → (kind_beq a b ≡ true) ↔ (a ≡ b)
kind_beq_iff a b = ground arith

instance abbrev pub kind_eq : Eq Kind
kind_eq = record { is_same = kind_beq; same_iff = kind_beq_iff }

-- `DatasetSourceSummary`, the fields that the dataset and its assembly read
pub record SourceSummary : Type 0 where
  pub provider : Provider
  pub kind : Kind
  pub received_at : ℕ
  pub stored_records : ℕ
  pub period_start : Option ℕ
  pub period_end : Option ℕ
  pub data_through : Option ℕ
  pub currency : Option String
  pub byte_size : ℕ

-- `DatasetSource`. Of metric series, resources and recommendations only the number is kept.
pub record Source (Num : Type 0) : Type 0 where
  pub summary : SourceSummary
  pub costs : List (CostRecord Num)
  pub metric_count : ℕ
  pub audit_events : List AuditEvent
  pub resource_count : ℕ
  pub recommendation_count : ℕ

-- `Dataset`; its `warnings` are texts that the code carries unread.
pub record Dataset (Num : Type 0) : Type 0 where
  pub dataset_id : String
  pub created_at : ℕ
  pub expires_at : ℕ
  pub sealed_at : Option ℕ
  pub sources : List (Source Num)
  pub currency : Option String

abbrev pub is_some {ℓ} : {A : Type ℓ} → Option A → Bool
is_some none = false
is_some (some _) = true

abbrev pub values_of : List (Option ℕ) → List ℕ
values_of [] = []
values_of (none ∷ rest) = values_of rest
values_of (some n ∷ rest) = n ∷ values_of rest

abbrev least_of : ℕ → List ℕ → ℕ
least_of n [] = n
least_of n (m ∷ rest) = least_of (min n m) rest

abbrev largest_of : ℕ → List ℕ → ℕ
largest_of n [] = n
largest_of n (m ∷ rest) = largest_of (max n m) rest

abbrev pub least : List ℕ → Option ℕ
least [] = none
least (n ∷ rest) = some (least_of n rest)

abbrev pub largest : List ℕ → Option ℕ
largest [] = none
largest (n ∷ rest) = some (largest_of n rest)

-- `SOURCE_KIND_EVIDENCE_TYPES`
abbrev evidence_types : Kind → List String
evidence_types cost = "cost" ∷ "usage" ∷ []
evidence_types metrics = "metric" ∷ []
evidence_types audit = "audit" ∷ []
evidence_types inventory = "inventory" ∷ []
evidence_types recommendations = "recommendation" ∷ []

abbrev add_new : List String → List String → List String
add_new [] types = types
add_new (t ∷ rest) types = add_new rest (if contains t types then types else types ++ t ∷ [])

module _ {Num : Type 0} where
  -- `DatasetSource.record_count`
  abbrev pub source_count : Source Num → ℕ
  source_count s =
      length s.costs
      + s.metric_count
      + length s.audit_events
      + s.resource_count
      + s.recommendation_count

  unfoldable pub in_slot : Provider → Kind → Source Num → Bool
  in_slot provider kind s = (s.summary.provider == provider) && (s.summary.kind == kind)

  -- `Dataset.sealed` and `Dataset.is_expired`
  abbrev pub is_sealed : Dataset Num → Bool
  is_sealed d = is_some d.sealed_at

  abbrev pub is_expired : ℕ → Dataset Num → Bool
  is_expired now d = leb d.expires_at now

  -- `Dataset.providers`
  unfoldable pub providers_of : List Provider → List (Source Num) → List Provider
  providers_of seen [] = seen
  providers_of seen (s ∷ rest) =
      providers_of
        (if contains s.summary.provider seen then seen else seen ++ s.summary.provider ∷ []) rest

  -- `Dataset.source`
  unfoldable pub source_in : Provider → Kind → List (Source Num) → Option (Source Num)
  unfolding in_slot
  source_in provider kind [] = none
  source_in provider kind (s ∷ rest) =
      if in_slot provider kind s then some s else source_in provider kind rest

  -- `Dataset.replace_source`, on the list of sources
  unfoldable pub replace_source : Source Num → List (Source Num) → List (Source Num)
  unfolding in_slot
  replace_source new [] = new ∷ []
  replace_source new (s ∷ rest) =
      if in_slot new.summary.provider new.summary.kind s
      then new ∷ rest
      else s ∷ replace_source new rest

  -- `Dataset.record_count`
  unfoldable pub records_in : List (Source Num) → ℕ
  records_in [] = 0
  records_in (s ∷ rest) = source_count s + records_in rest

  -- `Dataset.cost_records`
  unfoldable pub cost_records : Provider → Dataset Num → List (CostRecord Num)
  unfolding source_in
  cost_records provider d = elim (source_in provider cost d.sources) [
    | none ↦ []
    | some s ↦ s.costs
  ]

  -- `Dataset.period`: the period of the cost sources, or of all where there is none; `none` inside
  -- is the ValueError of `DateRange`
  unfoldable pub period : Dataset Num → Option (Option DateRange)
  unfolding date_range
  period d =
      let costs = select (λ (s : Source Num). s.summary.kind == cost) d.sources in
      let considered = elim costs as (λ _. List (Source Num)) [ [] ↦ d.sources | _ ∷ _ ↦ costs ] in
      let starts =
        least (values_of (map (λ (s : Source Num). s.summary.period_start) considered)) in
      let ends = largest (values_of (map (λ (s : Source Num). s.summary.period_end) considered)) in
      elim starts as (λ _. Option (Option DateRange)) [
        | none ↦ none
        | some first ↦ elim ends as (λ _. Option (Option DateRange)) [
          | none ↦ none
          | some last ↦ some (date_range first last)
        ]
      ]

  -- `Dataset.data_through`
  abbrev pub data_through : Dataset Num → Option ℕ
  data_through d = least (values_of (map (λ (s : Source Num). s.summary.data_through) d.sources))

  -- `Dataset.available_source_types`
  unfoldable pub available_from :
      Dict Provider (List String) → List (Source Num) → Dict Provider (List String)
  unfolding get put sort_by
  available_from available [] = available
  available_from available (s ∷ rest) =
      let types =
        add_new (evidence_types s.summary.kind) (get_or s.summary.provider [] available) in
      available_from
        (if source_count s == 0
          then available
          else put s.summary.provider (sort_by text_lt types) available)
        rest
