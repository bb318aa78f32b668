-- ===== src/Contracts/Bundle.antt =====
-- packages/contracts/src/cloudcause_contracts/provider_data.py: what one provider specialist may read.
use cloudcause.Prelude.{
  any, true, false, Bool, ℕ, ◌&&◌, String, Option, none, some, List, [], ◌∷◌, ◌++◌, map, select,
  length, contains, leb, string_eq, ◌==◌, if◌then◌else◌,
}
use cloudcause.Prelude.Extremes.{min_from}
use cloudcause.Prelude.Floats.{FloatOps, dec, ◌⊘◌, sum}
use cloudcause.Contracts.Common.{DataOrigin, upload, fixture, live}
use cloudcause.Contracts.Investigation.{is_nonempty}
use cloudcause.Contracts.Records.{CostRecord, CloudResource, AuditEvent}
use cloudcause.Contracts.Request.{Provenance}

-- `MetricSeries`, with the day of each point
pub record MetricSeries (Num : Type 0) : Type 0 where
  pub resource_id : String
  pub metric_name : String
  pub points : List (ℕ × Num)

-- `Recommendation`, the field that the look-up reads
pub record Recommendation : Type 0 where
  pub resource_id : Option String

-- `ProviderDataBundle`
pub record ProviderDataBundle (Num : Type 0) : Type 0 where
  pub costs : List (CostRecord Num)
  pub resources : List CloudResource
  pub metrics : List (MetricSeries Num)
  pub audit_events : List AuditEvent
  pub recommendations : List Recommendation
  pub costs_source : Provenance
  pub other_sources : List Provenance

abbrev first_resource : String → List CloudResource → Option CloudResource
first_resource id [] = none
first_resource id (r ∷ rest) = if r.resource_id == id then some r else first_resource id rest

abbrev when_any : {A : Type 0} → List A → List String → List String
when_any items types = if is_nonempty items then types else []

module _ {Num : Type 0} where
  -- `resource`, `metrics_for`, `events_for` and `recommendations_for`
  unfoldable pub resource_with : ProviderDataBundle Num → String → Option CloudResource
  resource_with bundle id = first_resource id bundle.resources

  unfoldable pub metrics_for : ProviderDataBundle Num → String → List (MetricSeries Num)
  metrics_for bundle id = select (λ (s : MetricSeries Num). s.resource_id == id) bundle.metrics

  unfoldable pub events_for : ProviderDataBundle Num → String → List AuditEvent
  events_for bundle id = select (λ (e : AuditEvent). contains id e.resource_ids) bundle.audit_events

  -- `data_through`: the least of the sources
  unfoldable pub bundle_data_through : ProviderDataBundle Num → ℕ
  unfolding min_from
  bundle_data_through bundle =
      (min_from (λ (s : Provenance). s.data_through) bundle.costs_source
        bundle.other_sources).data_through

  -- `available_source_types`
  unfoldable pub available_source_types : ProviderDataBundle Num → List String
  available_source_types bundle =
      when_any bundle.costs ("cost" ∷ "usage" ∷ [])
      ++ (when_any bundle.resources ("inventory" ∷ [])
          ++ (when_any bundle.metrics ("metric" ∷ [])
              ++ (when_any bundle.audit_events ("audit" ∷ [])
                  ++ when_any bundle.recommendations ("recommendation" ∷ []))))

module _ {Num : Type 0} ⦃F : FloatOps Num⦄ where
  abbrev average : List Num → Num
  average [] = dec 0 0
  average (x ∷ xs) = sum (x ∷ xs) ⊘ dec (length (x ∷ xs)) 0

  -- `window_average`
  unfoldable pub window_average : MetricSeries Num → ℕ → ℕ → Num
  window_average series start end = average (
      map (λ (p : ℕ × Num). p.1)
        (select (λ (p : ℕ × Num). leb start p.0 && leb p.0 end) series.points))

abbrev origin_is : DataOrigin → Provenance → Bool
origin_is upload s = elim s.origin [ upload ↦ true | _ ↦ false ]
origin_is fixture s = elim s.origin [ fixture ↦ true | _ ↦ false ]
origin_is live s = elim s.origin [ live ↦ true | _ ↦ false ]

-- `sources` and `origin`
abbrev pub bundle_sources : {Num : Type 0} → ProviderDataBundle Num → List Provenance
bundle_sources bundle = bundle.costs_source ∷ bundle.other_sources

unfoldable pub bundle_origin : {Num : Type 0} → ProviderDataBundle Num → DataOrigin
bundle_origin bundle =
    if any (origin_is upload) (bundle_sources bundle)
    then upload
    else if any (origin_is fixture) (bundle_sources bundle)
    then fixture
    else if any (origin_is live) (bundle_sources bundle)
    then live
    else fixture
