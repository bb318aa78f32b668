-- ===== src/Anomaly/Compare.antt =====
-- packages/anomaly/src/cloudcause_anomaly/comparison.py: candidates, their materiality, the comparison
-- of a provider and of all providers, and the reconciliation.
use cloudcause.Prelude.{
  ℕ, suc, String, Bool, true, false, not, ◌&&◌, Option, none, some, List, [], ◌∷◌, ◌++◌, map,
  select, take, ◌==◌, nat_eq, string_eq, if◌then◌else◌,
}
use cloudcause.Prelude.Dict.{Dict, get, get_or}
use cloudcause.Prelude.Floats.{FloatOps, dec, ◌⊖◌, ◌⊗◌, ◌⊘◌, ◌≼◌, ◌≺◌, round, sum, max_f, abs_f}
use cloudcause.Prelude.Sorting.{sort_by}
use cloudcause.Prelude.Text.{◌+++◌, two_digits, text_lt}
use cloudcause.Contracts.Common.{
  Provider, aws, azure, gcp, DateRange, dates, days, within, provider_eq,
}
use cloudcause.Contracts.Analytics.{
  Dimension, service, resource, AnalyticsConfig, AnomalyCandidate, Reconciliation,
  ProviderComparison, PeriodComparison,
}
use cloudcause.Contracts.Records.{CostRecord}
use cloudcause.Contracts.Investigation.{Finding, truthy}
use cloudcause.Anomaly.Daily.{daily_totals}
use cloudcause.Anomaly.Aggregates.{Aggregate, or_text, add_records}

abbrev pub provider_name : Provider → String
provider_name aws = "aws"
provider_name azure = "azure"
provider_name gcp = "gcp"

abbrev pub default_owner_tag_keys : List String
default_owner_tag_keys = "owner" ∷ "Owner" ∷ "team" ∷ "Team" ∷ []

module _ {Num : Type 0} ⦃F : FloatOps Num⦄ where
  -- `_percent` and `_unit_cost`
  unfoldable pub percent : Num → Num → Option Num
  percent current expected =
      if expected ≼ dec 0 0
      then none
      else some (round 3 ((current ⊖ expected) ⊘ expected ⊗ dec 100 0))

  unfoldable pub unit_cost : Num → Num → Option Num
  unit_cost cost quantity = if quantity ≼ dec 0 0 then none else some (round 8 (cost ⊘ quantity))

  -- `_first_spike`
  abbrev pub spike_threshold : Num → Num
  spike_threshold average = max_f (average ⊗ dec 15 1) (dec 1 2)

  unfoldable pub first_above : (ℕ → Num) → Num → List ℕ → Option ℕ
  first_above spent threshold [] = none
  first_above spent threshold (day ∷ rest) =
      if threshold ≺ spent day then some day else first_above spent threshold rest

  unfoldable pub first_spike : Aggregate Num → DateRange → Num → Option ℕ
  unfolding first_above get
  first_spike a current average =
      first_above (λ day. get_or day (dec 0 0) a.current_daily) (spike_threshold average)
        (dates current)

  -- current.days / baseline.days if baseline.days else 1.0
  abbrev pub period_scale : DateRange → DateRange → Num
  period_scale current baseline =
      if days baseline == 0 then dec 1 0 else dec (days current) 0 ⊘ dec (days baseline) 0

  abbrev pub per_day : Num → DateRange → Num
  per_day cost period = if days period == 0 then dec 0 0 else cost ⊘ dec (days period) 0

  -- `_build_candidate`
  unfoldable pub build_candidate :
      Aggregate Num → String → DateRange → DateRange → AnomalyCandidate Num
  unfolding percent unit_cost first_spike sort_by
  build_candidate a candidate_id current baseline =
      let expected_baseline = round 6 (a.baseline_cost ⊗ period_scale current baseline) in
      let expected_quantity = a.baseline_quantity ⊗ period_scale current baseline in
      let baseline_daily_average = per_day a.baseline_cost baseline in
      record {
        candidate_id = candidate_id;
        provider = a.provider;
        dimension = a.dimension;
        key = a.key;
        billing_account_id = a.billing_account_id;
        service_name = a.service_name;
        service_category = a.service_category;
        region_id = a.region_id;
        resource_id = a.resource_id;
        resource_name = a.resource_name;
        sku_ids = sort_by text_lt a.sku_ids;
        tags = a.tags;
        baseline_cost = round 6 a.baseline_cost;
        current_cost = round 6 a.current_cost;
        expected_baseline_cost = expected_baseline;
        absolute_change = round 6 (a.current_cost ⊖ expected_baseline);
        percent_change = percent a.current_cost expected_baseline;
        baseline_daily_average = round 6 baseline_daily_average;
        current_daily_average = round 6 (per_day a.current_cost current);
        baseline_quantity = round 6 a.baseline_quantity;
        current_quantity = round 6 a.current_quantity;
        quantity_percent_change = percent a.current_quantity expected_quantity;
        unit_cost_baseline = unit_cost a.baseline_cost a.baseline_quantity;
        unit_cost_current = unit_cost a.current_cost a.current_quantity;
        first_spike_date = first_spike a current baseline_daily_average;
        is_new = (a.baseline_cost ≼ dec 0 0) && (dec 0 0 ≺ a.current_cost);
        currency = a.currency;
      }

  -- `_is_material`
  unfoldable pub is_material : AnalyticsConfig Num → AnomalyCandidate Num → Bool
  is_material config c =
      if c.absolute_change ≺ config.min_absolute_change
      then false
      else if c.is_new
      then true
      else elim c.percent_change [ none ↦ true | some p ↦ config.min_percent_change ≼ p ]

  -- sorted(aggregates.values(), key=current_cost - baseline_cost, reverse=True)
  abbrev pub values : Dict String (Aggregate Num) → List (Aggregate Num)
  values aggregates = map (λ e. e.1) aggregates

  abbrev pub grows_more : Aggregate Num → Aggregate Num → Bool
  grows_more a b = (b.current_cost ⊖ b.baseline_cost) ≺ (a.current_cost ⊖ a.baseline_cost)

  -- the enumerated candidates, numbered from `index`
  unfoldable pub build_candidates :
      String → DateRange → DateRange → ℕ → List (Aggregate Num) → List (AnomalyCandidate Num)
  unfolding build_candidate two_digits
  build_candidates name current baseline index [] = []
  build_candidates name current baseline index (a ∷ rest) =
      build_candidate a (name +++ two_digits index) current baseline
      ∷ build_candidates name current baseline (suc index) rest

  -- resource-level where a resource id exists, service-level otherwise
  abbrev pub candidate_key : CostRecord Num → Option (Dimension × String)
  candidate_key r =
      if truthy r.resource_id
      then some (resource, elim r.resource_id [ none ↦ "" | some id ↦ id ])
      else some (service, r.service_name)

  abbrev pub of_provider : Provider → List (CostRecord Num) → List (CostRecord Num)
  of_provider provider records = select (λ (r : CostRecord Num). r.provider == provider) records

  -- the aggregates of `compare_provider`
  unfoldable pub provider_aggregates :
      List (CostRecord Num) → Provider → DateRange → DateRange → Dict String (Aggregate Num)
  unfolding add_records
  provider_aggregates records provider current baseline =
      add_records candidate_key provider current baseline (of_provider provider records) []

  -- the currency of the last record of the two periods that has one
  unfoldable pub last_currency : DateRange → DateRange → String → List (CostRecord Num) → String
  last_currency current baseline currency [] = currency
  last_currency current baseline currency (r ∷ rest) =
      last_currency current baseline
        (if not (within current r.usage_date) && not (within baseline r.usage_date)
          then currency
          else or_text r.currency currency)
        rest

  -- `reconcile`
  unfoldable pub reconcile : Num → Num → Num → Reconciliation Num
  reconcile total_change attributed tolerance =
      let attributed' = round 6 attributed in
      let unattributed = round 6 (total_change ⊖ attributed') in
      record {
        total_change = round 6 total_change;
        attributed_change = attributed';
        unattributed_change = unattributed;
        tolerance = tolerance;
        within_tolerance = abs_f unattributed ≼ tolerance ⊗ max_f (abs_f total_change) (dec 1 0);
      }

  -- `reconcile_findings`
  unfoldable pub reconcile_findings : List (Finding Num) → Num → Num → Reconciliation Num
  unfolding reconcile
  reconcile_findings findings total_change tolerance =
      reconcile total_change (sum (map (λ (f : Finding Num). f.actual_cost_increase) findings))
        tolerance

  -- the candidates of `compare_provider`
  unfoldable pub material_candidates :
      List (CostRecord Num)
      → Provider
      → DateRange
      → DateRange
      → AnalyticsConfig Num
      → List (AnomalyCandidate Num)
  unfolding provider_aggregates build_candidates is_material sort_by
  material_candidates records provider current baseline config =
      take config.max_candidates_per_provider (
        select (is_material config) (
          build_candidates (provider_name provider +++ "-cand-") current baseline 0
            (sort_by grows_more (values (provider_aggregates records provider current baseline)))))

  -- `compare_provider`
  unfoldable pub compare_provider :
      List (CostRecord Num)
      → Provider
      → DateRange
      → DateRange
      → AnalyticsConfig Num
      → ProviderComparison Num
  unfolding material_candidates last_currency reconcile daily_totals percent
  compare_provider records provider current baseline config =
      let aggregates = values (provider_aggregates records provider current baseline) in
      let candidates = material_candidates records provider current baseline config in
      let current_cost = round 6 (sum (map (λ (a : Aggregate Num). a.current_cost) aggregates)) in
      let baseline_cost = round 6 (sum (map (λ (a : Aggregate Num). a.baseline_cost) aggregates)) in
      let expected_baseline = round 6 (baseline_cost ⊗ period_scale current baseline) in
      let total_change = round 6 (current_cost ⊖ expected_baseline) in
      record {
        provider = provider;
        current_period = current;
        baseline_period = baseline;
        current_cost = current_cost;
        baseline_cost = baseline_cost;
        expected_baseline_cost = expected_baseline;
        absolute_change = total_change;
        percent_change = percent current_cost expected_baseline;
        daily_current = daily_totals (of_provider provider records) current;
        daily_baseline = daily_totals (of_provider provider records) baseline;
        candidates = candidates;
        reconciliation =
            reconcile total_change
              (sum (map (λ (c : AnomalyCandidate Num). c.absolute_change) candidates))
              config.reconciliation_tolerance;
        currency = last_currency current baseline config.currency (of_provider provider records);
      }

  abbrev changes_of : List (ProviderComparison Num) → List Num
  changes_of [] = []
  changes_of (p ∷ rest) =
      map (λ (c : AnomalyCandidate Num). c.absolute_change) p.candidates ++ changes_of rest

  -- `compare_periods`
  unfoldable pub compare_periods :
      List (CostRecord Num)
      → List Provider
      → DateRange
      → DateRange
      → AnalyticsConfig Num
      → PeriodComparison Num
  unfolding compare_provider
  compare_periods records providers current baseline config =
      let comparisons = map (λ p. compare_provider records p current baseline config) providers in
      let total_current =
        round 6 (sum (map (λ (p : ProviderComparison Num). p.current_cost) comparisons)) in
      let total_expected =
        round 6
          (sum (map (λ (p : ProviderComparison Num). p.expected_baseline_cost) comparisons)) in
      let total_baseline =
        round 6 (sum (map (λ (p : ProviderComparison Num). p.baseline_cost) comparisons)) in
      let total_change = round 6 (total_current ⊖ total_expected) in
      record {
        current_period = current;
        baseline_period = baseline;
        config = config;
        providers = comparisons;
        total_current_cost = total_current;
        total_baseline_cost = total_baseline;
        total_absolute_change = total_change;
        total_percent_change = percent total_current total_expected;
        reconciliation =
            some (
              reconcile total_change (sum (changes_of comparisons))
                config.reconciliation_tolerance);
      }
