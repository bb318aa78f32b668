-- ===== src/Focus/Rows.antt =====
-- packages/focus/src/cloudcause_focus/parsers.py: `parse_aws_rows`, `parse_azure_cost_management` and
-- `parse_gcp_billing_export`, on rows of texts; an Azure document is its column names and rows. An exception of one row ends a parse, which is `none`.
use cloudcause.Prelude.{
  ℕ, suc, String, Option, none, some, List, [], ◌∷◌, map, string_eq, if◌then◌else◌,
}
use cloudcause.Prelude.Dict.{get, put}
use cloudcause.Prelude.Floats.{FloatOps, dec, ◌⊕◌, ◌≼◌, round}
use cloudcause.Prelude.Text.{◌+++◌, decimal}
use cloudcause.Contracts.Common.{aws, azure, gcp}
use cloudcause.Contracts.Records.{CostRecord, ChargeCategory, usage, credit}
use cloudcause.Focus.Categories.{service_category}
use cloudcause.Focus.Parsers.{
  aws_charge_category, azure_charge_category, as_float, resource_name_from_id,
}
use cloudcause.Focus.Cells.{TextLibrary, Row, text_of, text_or_default, as_date, as_tags}

-- a or b, on texts that may be missing
abbrev or_name : Option String → Option String → Option String
or_name none other = other
or_name (some text) other = some text

-- dict(zip(names, row)); a later column of a name replaces an earlier one
abbrev add_columns : Row → List String → List String → Row
add_columns row [] cells = row
add_columns row (name ∷ names) [] = row
add_columns row (name ∷ names) (cell ∷ cells) = add_columns (put name cell row) names cells

unfoldable pub by_column : List String → List String → Row
unfolding put
by_column names cells = add_columns [] names cells

module _ {Num : Type 0} ⦃F : FloatOps Num⦄ (lib : TextLibrary Num) where
  abbrev amount : String → Row → Num → Num
  amount name row default = as_float lib.float_of (get name row) default

  -- the body of the loop of `parse_aws_rows`, with the day of the row
  unfoldable pub aws_record : ℕ → Row → ℕ → CostRecord Num
  unfolding get text_of text_or_default service_category aws_charge_category as_float
      resource_name_from_id as_tags
  aws_record index row day =
      let service =
        text_or_default ("product_servicename" ∷ "line_item_product_code" ∷ []) "unknown" row in
      let resource_id = text_of ("line_item_resource_id" ∷ []) row in
      record {
        provider = aws;
        billing_account_id =
            text_or_default ("line_item_usage_account_id" ∷ "bill_payer_account_id" ∷ []) "unknown"
              row;
        usage_date = day;
        service_name = service;
        service_category = service_category lib.lower service;
        charge_category = aws_charge_category lib.key_of (get "line_item_line_item_type" row);
        charge_description = text_or_default ("line_item_line_item_description" ∷ []) "" row;
        region_id = text_of ("product_region_code" ∷ []) row;
        resource_id = resource_id;
        resource_name =
            or_name (text_of ("resource_tags_user_name" ∷ []) row)
              (resource_name_from_id resource_id);
        sku_id = text_of ("line_item_usage_type" ∷ "product_sku" ∷ []) row;
        usage_quantity = amount "line_item_usage_amount" row (dec 0 0);
        usage_unit = text_or_default ("pricing_unit" ∷ []) "unit" row;
        billed_cost = amount "line_item_unblended_cost" row (dec 0 0);
        effective_cost =
            amount "line_item_net_amortized_cost" row
              (amount "line_item_unblended_cost" row (dec 0 0));
        currency = text_or_default ("line_item_currency_code" ∷ []) "USD" row;
        tags = as_tags lib (get "resource_tags" row);
        commitment_discount_id = text_of ("savings_plan_savings_plan_a_r_n" ∷ []) row;
        source_record_id =
            some
              (text_or_default ("identity_line_item_id" ∷ []) ("aws-row-" +++ decimal index) row);
      }

  -- the body of the loop of `parse_azure_cost_management`, on the values of a row by column
  unfoldable pub azure_record : ℕ → Row → ℕ → CostRecord Num
  unfolding get text_of text_or_default service_category azure_charge_category as_float
      resource_name_from_id as_tags
  azure_record index row day =
      let service = text_or_default ("MeterCategory" ∷ "ServiceName" ∷ []) "unknown" row in
      let resource_id = text_of ("ResourceId" ∷ []) row in
      let cost = amount "Cost" row (amount "CostUSD" row (dec 0 0)) in
      record {
        provider = azure;
        billing_account_id = text_or_default ("SubscriptionId" ∷ []) "unknown" row;
        usage_date = day;
        service_name = service;
        service_category = service_category lib.lower service;
        charge_category = azure_charge_category lib.lower (get "ChargeType" row);
        charge_description = text_or_default ("Meter" ∷ "MeterSubCategory" ∷ []) "" row;
        region_id = text_of ("ResourceLocation" ∷ []) row;
        resource_id = resource_id;
        resource_name = resource_name_from_id resource_id;
        sku_id = text_of ("Meter" ∷ []) row;
        usage_quantity = amount "UsageQuantity" row (dec 0 0);
        usage_unit = text_or_default ("UnitOfMeasure" ∷ []) "unit" row;
        billed_cost = cost;
        effective_cost = amount "AmortizedCost" row cost;
        currency = text_or_default ("Currency" ∷ []) "USD" row;
        tags = as_tags lib (get "Tags" row);
        commitment_discount_id = text_of ("ReservationId" ∷ []) row;
        source_record_id = some ("azure-row-" +++ decimal index);
      }

  abbrev gcp_charge : Num → ChargeCategory
  gcp_charge cost = if dec 0 0 ≼ cost then usage else credit

  -- the body of the loop of `parse_gcp_billing_export`
  unfoldable pub gcp_record : ℕ → Row → ℕ → CostRecord Num
  unfolding get text_of text_or_default service_category as_float resource_name_from_id as_tags
  gcp_record index row day =
      let service = text_or_default ("service.description" ∷ []) "unknown" row in
      let resource_id = text_of ("resource.global_name" ∷ "resource.name" ∷ []) row in
      let cost = amount "cost" row (dec 0 0) in
      record {
        provider = gcp;
        billing_account_id = text_or_default ("billing_account_id" ∷ []) "unknown" row;
        usage_date = day;
        service_name = service;
        service_category = service_category lib.lower service;
        charge_category = gcp_charge cost;
        charge_description = text_or_default ("sku.description" ∷ []) "" row;
        region_id = text_of ("location.location" ∷ []) row;
        resource_id = resource_id;
        resource_name = resource_name_from_id resource_id;
        sku_id = text_of ("sku.id" ∷ "sku.description" ∷ []) row;
        usage_quantity = amount "usage.amount" row (dec 0 0);
        usage_unit = text_or_default ("usage.unit" ∷ []) "unit" row;
        billed_cost = cost;
        effective_cost = round 6 (cost ⊕ amount "credits.amount" row (dec 0 0));
        currency = text_or_default ("currency" ∷ []) "USD" row;
        tags = as_tags lib (get "labels" row);
        commitment_discount_id = text_of ("credits.name" ∷ []) row;
        source_record_id = some ("gcp-row-" +++ decimal index);
      }

  -- the record of a row, if its day can be read
  abbrev pub dated_record :
      (ℕ → Row → ℕ → CostRecord Num) → String → ℕ → Row → Option (CostRecord Num)
  dated_record to_record column index row = elim (as_date lib (get column row)) [
    | none ↦ none
    | some day ↦ some (to_record index row day)
  ]

  abbrev pub add_row :
      Option (CostRecord Num) → Option (List (CostRecord Num)) → Option (List (CostRecord Num))
  add_row (some r) (some rs) = some (r ∷ rs)
  add_row (some r) none = none
  add_row none rs = none

  -- the loops over the rows, with the index of the next row
  unfoldable pub parse_from :
      (ℕ → Row → ℕ → CostRecord Num) → String → ℕ → List Row → Option (List (CostRecord Num))
  unfolding get as_date
  parse_from to_record column index [] = some []
  parse_from to_record column index (row ∷ rest) =
      add_row (dated_record to_record column index row)
        (parse_from to_record column (suc index) rest)

  unfoldable pub parse_aws_rows : List Row → Option (List (CostRecord Num))
  unfolding aws_record parse_from
  parse_aws_rows rows = parse_from aws_record "line_item_usage_start_date" 0 rows

  unfoldable pub parse_azure_cost_management :
      List String → List (List String) → Option (List (CostRecord Num))
  unfolding azure_record parse_from by_column
  parse_azure_cost_management names rows =
      parse_from azure_record "UsageDate" 0 (map (by_column names) rows)

  unfoldable pub parse_gcp_billing_export : List Row → Option (List (CostRecord Num))
  unfolding gcp_record parse_from
  parse_gcp_billing_export rows = parse_from gcp_record "usage_start_time" 0 rows
