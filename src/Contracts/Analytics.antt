-- ===== src/Contracts/Analytics.antt =====
-- packages/contracts/src/cloudcause_contracts/analytics.py: outputs of the deterministic analytics.
use cloudcause.Prelude.{
  ℕ, String, Bool, true, Option, none, some, List, [], ◌∷◌, ◌++◌, ◌==◌, if◌then◌else◌,
}
use cloudcause.Prelude.Dict.{Dict}
use cloudcause.Prelude.Floats.{FloatOps, dec, ◌≼◌}
use cloudcause.Contracts.Common.{Provider, DateRange, provider_eq}

-- `Dimension`
pub data Dimension : Type 0 where
  service region account resource tag_owner actor : Dimension

module _ (Num : Type 0) where
  pub record AnalyticsConfig : Type 0 where
    pub min_absolute_change : Num
    pub min_percent_change : Num
    pub reconciliation_tolerance : Num
    pub max_candidates_per_provider : ℕ
    pub currency : String

  pub record DailyTotal : Type 0 where
    pub usage_date : ℕ
    pub billed_cost : Num
    pub effective_cost : Num

  pub record AnomalyCandidate : Type 0 where
    pub candidate_id : String
    pub provider : Provider
    pub dimension : Dimension
    pub key : String
    pub billing_account_id : Option String
    pub service_name : Option String
    pub service_category : Option String
    pub region_id : Option String
    pub resource_id : Option String
    pub resource_name : Option String
    pub sku_ids : List String
    pub tags : Dict String String
    pub baseline_cost : Num
    pub current_cost : Num
    pub expected_baseline_cost : Num
    pub absolute_change : Num
    pub percent_change : Option Num
    pub baseline_daily_average : Num
    pub current_daily_average : Num
    pub baseline_quantity : Num
    pub current_quantity : Num
    pub quantity_percent_change : Option Num
    pub unit_cost_baseline : Option Num
    pub unit_cost_current : Option Num
    pub first_spike_date : Option ℕ
    pub is_new : Bool
    pub currency : String

  -- The `note` is text for readers and is not modelled.
  pub record Reconciliation : Type 0 where
    pub total_change : Num
    pub attributed_change : Num
    pub unattributed_change : Num
    pub tolerance : Num
    pub within_tolerance : Bool

  pub record ProviderComparison : Type 0 where
    pub provider : Provider
    pub current_period : DateRange
    pub baseline_period : DateRange
    pub current_cost : Num
    pub baseline_cost : Num
    pub expected_baseline_cost : Num
    pub absolute_change : Num
    pub percent_change : Option Num
    pub daily_current : List DailyTotal
    pub daily_baseline : List DailyTotal
    pub candidates : List AnomalyCandidate
    pub reconciliation : Reconciliation
    pub currency : String

  pub record PeriodComparison : Type 0 where
    pub current_period : DateRange
    pub baseline_period : DateRange
    pub config : AnalyticsConfig
    pub providers : List ProviderComparison
    pub total_current_cost : Num
    pub total_baseline_cost : Num
    pub total_absolute_change : Num
    pub total_percent_change : Option Num
    pub reconciliation : Option Reconciliation

module _ {Num : Type 0} where
  -- `AnomalyCandidate.is_quantity_driven`
  unfoldable pub is_quantity_driven : ⦃F : FloatOps Num⦄ → AnomalyCandidate Num → Bool
  is_quantity_driven c = elim c.quantity_percent_change [ none ↦ true | some p ↦ dec 10 0 ≼ p ]

  -- `PeriodComparison.for_provider`, `candidates_for` and `all_candidates`
  unfoldable pub for_provider_in :
      Provider → List (ProviderComparison Num) → Option (ProviderComparison Num)
  for_provider_in p [] = none
  for_provider_in p (c ∷ rest) = if c.provider == p then some c else for_provider_in p rest

  abbrev pub for_provider : Provider → PeriodComparison Num → Option (ProviderComparison Num)
  for_provider p comparison = for_provider_in p comparison.providers

  abbrev pub candidates_for : Provider → PeriodComparison Num → List (AnomalyCandidate Num)
  candidates_for p comparison = elim (for_provider p comparison) [
    | none ↦ []
    | some c ↦ c.candidates
  ]

  unfoldable pub candidates_in : List (ProviderComparison Num) → List (AnomalyCandidate Num)
  candidates_in [] = []
  candidates_in (c ∷ rest) = c.candidates ++ candidates_in rest

  abbrev pub all_candidates : PeriodComparison Num → List (AnomalyCandidate Num)
  all_candidates comparison = candidates_in comparison.providers
