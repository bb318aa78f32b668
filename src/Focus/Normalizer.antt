-- ===== src/Focus/Normalizer.antt =====
-- packages/focus/src/cloudcause_focus/normalizer.py. `month_start` is `date.replace(day=1)` on ordinals,
-- and a day at midnight stands for a time; `capitalize` of a charge category is written out.
use cloudcause.Prelude.{
  ℕ, ◌+◌, ◌-◌, String, Bool, not, ◌&&◌, ◌||◌, Option, none, some, List, [], ◌∷◌, map, any, contains,
  select, nat_beq, string_eq, ◌==◌, if◌then◌else◌,
}
use cloudcause.Prelude.Dict.{Dict}
use cloudcause.Prelude.Floats.{FloatOps, round, sum}
use cloudcause.Contracts.Common.{Provider, provider_eq, DateRange, within}
use cloudcause.Contracts.Investigation.{is_nonempty}
use cloudcause.Contracts.Records.{
  CostRecord, ChargeCategory, usage, purchase, tax, credit, adjustment, unknown,
}
use cloudcause.Focus.Versions.{require_supported_focus_version}

-- `FocusRecord`
pub record FocusRecord (Num : Type 0) : Type 0 where
  pub provider_name : Provider
  pub billing_account_id : String
  pub charge_period_start : ℕ
  pub charge_period_end : ℕ
  pub billing_period_start : ℕ
  pub billing_period_end : ℕ
  pub service_name : String
  pub service_category : String
  pub charge_category : String
  pub charge_description : String
  pub region_id : Option String
  pub resource_id : Option String
  pub resource_name : Option String
  pub sku_id : Option String
  pub consumed_quantity : Num
  pub consumed_unit : String
  pub billed_cost : Num
  pub effective_cost : Num
  pub billing_currency : String
  pub tags : Dict String String
  pub commitment_discount_id : Option String
  pub focus_version : String

abbrev capitalized : ChargeCategory → String
capitalized usage = "Usage"
capitalized purchase = "Purchase"
capitalized tax = "Tax"
capitalized credit = "Credit"
capitalized adjustment = "Adjustment"
capitalized unknown = "Unknown"

abbrev charge_code : ChargeCategory → ℕ
charge_code usage = 0
charge_code purchase = 1
charge_code tax = 2
charge_code credit = 3
charge_code adjustment = 4
charge_code unknown = 5

abbrev pub same_charge : ChargeCategory → ChargeCategory → Bool
same_charge a b = nat_beq (charge_code a) (charge_code b)

-- the default of `include_charge_categories`
abbrev pub included_charge_categories : List ChargeCategory
included_charge_categories = usage ∷ purchase ∷ adjustment ∷ []

-- a filter that is empty lets everything pass
abbrev unless_empty : {A : Type 0} → (List A → Bool) → List A → Bool
unless_empty p xs = not (is_nonempty xs) || p xs

abbrev pub nonempty_texts : List String → List String
nonempty_texts texts = select (λ t. not (t == "")) texts

module _ {Num : Type 0} where
  -- one iteration of the loop of `filter_records`
  unfoldable pub is_selected :
      List DateRange → List Provider → List String → List ChargeCategory → CostRecord Num → Bool
  is_selected periods providers account_ids categories r =
      unless_empty (contains r.provider) providers
      && (unless_empty (contains r.billing_account_id) (nonempty_texts account_ids)
          && (unless_empty (any (same_charge r.charge_category)) categories
              && unless_empty (any (λ p. within p r.usage_date)) periods))

  unfoldable pub filter_records :
      List DateRange
      → List Provider
      → List String
      → List ChargeCategory
      → List (CostRecord Num)
      → List (CostRecord Num)
  unfolding is_selected
  filter_records periods providers account_ids categories records =
      select (is_selected periods providers account_ids categories) records

module _ {Num : Type 0} ⦃F : FloatOps Num⦄ where
  -- `total_cost`
  unfoldable pub total_cost_of : Bool → List (CostRecord Num) → Num
  total_cost_of use_effective records = round 6 (
      sum (
        map (λ (r : CostRecord Num). if use_effective then r.effective_cost else r.billed_cost)
          records))

module _ {Num : Type 0} (month_start : ℕ → ℕ) where
  -- `to_focus_record`, after its guard
  abbrev pub projected : String → CostRecord Num → FocusRecord Num
  projected version r = record {
    provider_name = r.provider;
    billing_account_id = r.billing_account_id;
    charge_period_start = r.usage_date;
    charge_period_end = r.usage_date + 1;
    billing_period_start = month_start r.usage_date;
    billing_period_end = month_start (month_start r.usage_date + 32) - 1;
    service_name = r.service_name;
    service_category = r.service_category;
    charge_category = capitalized r.charge_category;
    charge_description = r.charge_description;
    region_id = r.region_id;
    resource_id = r.resource_id;
    resource_name = r.resource_name;
    sku_id = r.sku_id;
    consumed_quantity = r.usage_quantity;
    consumed_unit = r.usage_unit;
    billed_cost = r.billed_cost;
    effective_cost = r.effective_cost;
    billing_currency = r.currency;
    tags = r.tags;
    commitment_discount_id = r.commitment_discount_id;
    focus_version = version;
  }

  unfoldable pub to_focus_record : String → CostRecord Num → Option (FocusRecord Num)
  unfolding require_supported_focus_version
  to_focus_record version r = elim (require_supported_focus_version version) [
    | none ↦ none
    | some _ ↦ some (projected version r)
  ]

  -- the comprehension of `to_focus_records`, which an exception of one record ends
  abbrev pub each_focus_record : String → List (CostRecord Num) → Option (List (FocusRecord Num))
  each_focus_record version [] = some []
  each_focus_record version (r ∷ rest) =
      let others = each_focus_record version rest in
      elim (to_focus_record version r) [
        | none ↦ none
        | some f ↦ elim others [ none ↦ none | some fs ↦ some (f ∷ fs) ]
      ]

  unfoldable pub to_focus_records : String → List (CostRecord Num) → Option (List (FocusRecord Num))
  unfolding to_focus_record require_supported_focus_version
  to_focus_records version records = elim (require_supported_focus_version version) [
    | none ↦ none
    | some _ ↦ each_focus_record version records
  ]
