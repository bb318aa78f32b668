-- ===== src/Anomaly/Aggregates.antt =====
-- packages/anomaly/src/cloudcause_anomaly/comparison.py: `_Aggregate`, `_dimension_key` and the loop
-- that sorts records into aggregates.
use cloudcause.Prelude.{
  ℕ, String, Bool, not, ◌&&◌, ◌||◌, Option, none, some, List, [], ◌∷◌, ◌++◌, contains, nat_eq,
  string_eq, ◌==◌, if◌then◌else◌,
}
use cloudcause.Prelude.Dict.{Dict, get, put, put_default, get_or}
use cloudcause.Prelude.Floats.{FloatOps, dec, ◌⊕◌, ◌≺◌}
use cloudcause.Contracts.Common.{Provider, DateRange, within, provider_eq}
use cloudcause.Contracts.Analytics.{Dimension, service, region, account, resource, tag_owner, actor}
use cloudcause.Contracts.Records.{CostRecord}
use cloudcause.Contracts.Investigation.{truthy}
use cloudcause.Anomaly.Daily.{add_to}

-- `_Aggregate`; `sku_ids` is a set in the order of insertion.
pub record Aggregate (Num : Type 0) : Type 0 where
  pub key : String
  pub dimension : Dimension
  pub provider : Provider
  pub billing_account_id : Option String
  pub service_name : Option String
  pub service_category : Option String
  pub region_id : Option String
  pub resource_id : Option String
  pub resource_name : Option String
  pub currency : String
  pub sku_ids : List String
  pub tags : Dict String String
  pub current_cost : Num
  pub baseline_cost : Num
  pub current_quantity : Num
  pub baseline_quantity : Num
  pub current_daily : Dict ℕ Num
  pub service_costs : Dict String Num
  pub service_categories : Dict String String

-- a or b
abbrev or_else : Option String → Option String → Option String
or_else a b = if truthy a then a else b

-- s or t, on texts
abbrev pub or_text : String → String → String
or_text s t = if s == "" then t else s

abbrev add_sku : Option String → List String → List String
add_sku none skus = skus
add_sku (some sku) skus = if (sku == "") || contains sku skus then skus else skus ++ sku ∷ []

-- the loop of `setdefault` over the record's tags
abbrev add_tags : Dict String String → Dict String String → Dict String String
add_tags [] tags = tags
add_tags ((k, v) ∷ rest) tags = add_tags rest (put_default k v tags)

-- the `tag_owner` case, and a key with its substitute
abbrev first_tag : List String → Dict String String → String
first_tag [] tags = "untagged"
first_tag (key ∷ rest) tags = elim (get key tags) [
  | none ↦ first_tag rest tags
  | some v ↦ if v == "" then first_tag rest tags else v
]

abbrev text_or : String → Option String → String
text_or other none = other
text_or other (some s) = or_text s other

module _ {Num : Type 0} ⦃F : FloatOps Num⦄ where
  -- max(items, key=cost): the first of the largest
  abbrev largest_of : String × Num → Dict String Num → String × Num
  largest_of best [] = best
  largest_of best ((k, v) ∷ rest) = largest_of (if best.1 ≺ v then (k, v) else best) rest

  abbrev dominant : Dict String Num → Option (String × Num)
  dominant [] = none
  dominant (item ∷ rest) = some (largest_of item rest)

  unfoldable pub new_aggregate : String → Dimension → Provider → Aggregate Num
  new_aggregate key dimension provider = record {
    key = key;
    dimension = dimension;
    provider = provider;
    billing_account_id = none;
    service_name = none;
    service_category = none;
    region_id = none;
    resource_id = none;
    resource_name = none;
    currency = "USD";
    sku_ids = [];
    tags = [];
    current_cost = dec 0 0;
    baseline_cost = dec 0 0;
    current_quantity = dec 0 0;
    baseline_quantity = dec 0 0;
    current_daily = [];
    service_costs = [];
    service_categories = [];
  }

  -- the service that names the aggregate, and its category
  abbrev name_service :
      Dict String Num
      → Dict String String
      → CostRecord Num
      → Aggregate Num
      → Option String × Option String
  name_service costs categories r a =
      let by_default : Option String × Option String = elim a.service_name [
        | none ↦ (some r.service_name, some r.service_category)
        | some _ ↦ (a.service_name, a.service_category)
      ] in
      elim (dominant costs) [
        | none ↦ by_default
        | some item ↦ if dec 0 0 ≺ item.1 then (some item.0, get item.0 categories) else by_default
      ]

  -- `_Aggregate.add`
  unfoldable pub add : CostRecord Num → Bool → Aggregate Num → Aggregate Num
  unfolding get put add_to
  add r in_current a =
      let costs =
        add_to r.service_name (if in_current then r.effective_cost else dec 0 0) a.service_costs in
      let categories = put_default r.service_name r.service_category a.service_categories in
      let (service_name, service_category) = name_service costs categories r a in
      record {
        key = a.key;
        dimension = a.dimension;
        provider = a.provider;
        billing_account_id = or_else a.billing_account_id (some r.billing_account_id);
        service_name = service_name;
        service_category = service_category;
        region_id = or_else a.region_id r.region_id;
        resource_id = or_else a.resource_id r.resource_id;
        resource_name = or_else a.resource_name r.resource_name;
        currency = or_text r.currency a.currency;
        sku_ids = add_sku r.sku_id a.sku_ids;
        tags = add_tags r.tags a.tags;
        current_cost = if in_current then a.current_cost ⊕ r.effective_cost else a.current_cost;
        baseline_cost = if in_current then a.baseline_cost else a.baseline_cost ⊕ r.effective_cost;
        current_quantity =
            if in_current then a.current_quantity ⊕ r.usage_quantity else a.current_quantity;
        baseline_quantity =
            if in_current then a.baseline_quantity else a.baseline_quantity ⊕ r.usage_quantity;
        current_daily =
            if in_current
            then add_to r.usage_date r.effective_cost a.current_daily
            else a.current_daily;
        service_costs = costs;
        service_categories = categories;
      }

  -- `_dimension_key`
  unfoldable pub dimension_key : CostRecord Num → Dimension → List String → Option String
  unfolding get
  dimension_key r resource tag_keys = r.resource_id
  dimension_key r service tag_keys = some r.service_name
  dimension_key r region tag_keys = some (text_or "unknown-region" r.region_id)
  dimension_key r account tag_keys = some r.billing_account_id
  dimension_key r tag_owner tag_keys = some (first_tag tag_keys r.tags)
  dimension_key r actor tag_keys = some (text_or "unattributed" (get "cloudcause:actor" r.tags))

  -- the end of the body: a record without a key is passed over
  unfoldable pub place :
      Provider
      → Bool
      → CostRecord Num
      → Option (Dimension × String)
      → Dict String (Aggregate Num)
      → Dict String (Aggregate Num)
  unfolding add new_aggregate get put
  place provider in_current r none aggregates = aggregates
  place provider in_current r (some (dimension, key)) aggregates =
      put key (add r in_current (get_or key (new_aggregate key dimension provider) aggregates))
        aggregates

  -- The body of the loops that fill `aggregates`: a record of neither period is passed over.
  unfoldable pub add_record :
      (CostRecord Num → Option (Dimension × String))
      → Provider
      → DateRange
      → DateRange
      → CostRecord Num
      → Dict String (Aggregate Num)
      → Dict String (Aggregate Num)
  unfolding place
  add_record key_of provider current baseline r aggregates =
      let in_current = within current r.usage_date in
      if not in_current && not (within baseline r.usage_date)
      then aggregates
      else place provider in_current r (key_of r) aggregates

  unfoldable pub add_records :
      (CostRecord Num → Option (Dimension × String))
      → Provider
      → DateRange
      → DateRange
      → List (CostRecord Num)
      → Dict String (Aggregate Num)
      → Dict String (Aggregate Num)
  unfolding add_record
  add_records key_of provider current baseline [] aggregates = aggregates
  add_records key_of provider current baseline (r ∷ rest) aggregates =
      add_records key_of provider current baseline rest
        (add_record key_of provider current baseline r aggregates)
