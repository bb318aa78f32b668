-- ===== src/Focus/Tests.antt =====
-- Charge categories, days and costs read from exports.
use cloudcause.Prelude.{
  ◌≡◌, refl, String, none, some, [], ◌∷◌, map, string_eq, ◌==◌, Option, List, if◌then◌else◌,
}
use cloudcause.Prelude.Floats.{dec}
use cloudcause.Prelude.Micro.{Micro, micro_ops}
use cloudcause.Contracts.Records.{CostRecord, credit, unknown}
use cloudcause.Focus.Categories.{service_category}
use cloudcause.Focus.Parsers.{aws_charge_category, resource_name_from_id}
use cloudcause.Focus.Cells.{TextLibrary, as_date}
use cloudcause.Focus.Rows.{
  parse_azure_cost_management, parse_gcp_billing_export, azure_record, parse_from, by_column,
}

abbrev as_written : String → String
as_written s = s

refund_is_credit : aws_charge_category as_written (some "refund") ≡ credit
unfolding aws_charge_category
refund_is_credit = refl

new_type_is_unknown : aws_charge_category as_written (some "brandnewfee") ≡ unknown
unfolding aws_charge_category
new_type_is_unknown = refl

nat_gateway_is_network : service_category as_written "aws nat gateway" ≡ "Networking"
unfolding service_category
nat_gateway_is_network = refl

name_of_arn : resource_name_from_id (some "arn:aws:ec2:eu-west-1:1:instance/i-1") ≡ some "i-1"
unfolding resource_name_from_id
name_of_arn = refl

-- a library that knows one day and no JSON
abbrev small_library : TextLibrary Micro
small_library = record {
  lower = as_written;
  key_of = as_written;
  strip = as_written;
  is_digits = (λ s. s == "20260713");
  count = (λ s. if s == "20260713" then 8 else 4);
  part = (λ s from to. s);
  int_of = (λ s. 13);
  make_date = (λ year month day. some day);
  iso_datetime_day = (λ s. none);
  iso_date = (λ s. none);
  replace_z = as_written;
  float_of = (λ s. some (dec 5 0));
  json_loads = (λ s. none);
}

day_of_digits : as_date small_library (some "20260713") ≡ some 13
unfolding as_date
day_of_digits = refl

missing_day_ends_parse : parse_gcp_billing_export small_library ([] ∷ []) ≡ none
unfolding parse_gcp_billing_export parse_from as_date
missing_day_ends_parse = refl

abbrev costs : Option (List (CostRecord Micro)) → List Micro
costs none = []
costs (some records) = map CostRecord.billed_cost records

cost_of_azure_row :
    costs (
      parse_azure_cost_management small_library
        ("UsageDate" ∷ "Cost" ∷ [])
        (("20260713" ∷ "5" ∷ []) ∷ []))
    ≡ dec 5 0 ∷ []
unfolding parse_azure_cost_management parse_from azure_record as_date by_column
cost_of_azure_row = refl
