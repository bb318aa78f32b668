-- ===== src/Contracts/Records.antt =====
-- packages/contracts/src/cloudcause_contracts/provider_data.py: the normalized records that the
-- analytics read.
use cloudcause.Prelude.{
  ℕ, String, Option, none, some, List, [], ◌∷◌, ◌++◌, string_eq, if◌then◌else◌,
}
use cloudcause.Prelude.Dict.{Dict, get}
use cloudcause.Prelude.Floats.{FloatOps, dec, ◌≼◌, sum}
use cloudcause.Contracts.Common.{Provider}

-- `ChargeCategory`
pub data ChargeCategory : Type 0 where
  usage purchase tax credit adjustment unknown : ChargeCategory

module _ (Num : Type 0) where
  -- `CostRecord`
  pub record CostRecord : Type 0 where
    pub provider : Provider
    pub billing_account_id : String
    pub usage_date : ℕ
    pub service_name : String
    pub service_category : String
    pub charge_category : ChargeCategory
    pub charge_description : String
    pub region_id : Option String
    pub resource_id : Option String
    pub resource_name : Option String
    pub sku_id : Option String
    pub usage_quantity : Num
    pub usage_unit : String
    pub billed_cost : Num
    pub effective_cost : Num
    pub currency : String
    pub tags : Dict String String
    pub commitment_discount_id : Option String
    pub source_record_id : Option String

-- `CloudResource`, the fields that the components read
pub record CloudResource : Type 0 where
  pub resource_id : String
  pub resource_type : String
  pub tags : Dict String String

-- `AuditEvent`; of `event_time` it has the moment, its UTC day, and the day in its own time zone.
pub record AuditEvent : Type 0 where
  pub provider : Provider
  pub event_id : String
  pub event_name : String
  pub event_time : ℕ
  pub event_day : ℕ
  pub event_date : ℕ
  pub actor : Option String
  pub resource_ids : List String
  pub attributes : Dict String String

-- `float` of a text: `none` for a text that is no number, and for a value that is not finite
module _ {Num : Type 0} ⦃F : FloatOps Num⦄ (parse : String → Option Num) where
  -- `AuditEvent._numeric_attribute`
  unfoldable pub numeric_attribute : AuditEvent → String → Option Num
  unfolding get
  numeric_attribute event key = elim (get key event.attributes) [
    | none ↦ none
    | some raw ↦ elim (parse raw) [
      | none ↦ none
      | some value ↦ if dec 0 0 ≼ value then some value else none
    ]
  ]

  abbrev listed : Option Num → List Num
  listed none = []
  listed (some value) = value ∷ []

  abbrev sum_nonempty : List Num → Option Num
  sum_nonempty [] = none
  sum_nonempty (x ∷ xs) = some (sum (x ∷ xs))

  -- `AuditEvent.token_count`
  unfoldable pub token_count : AuditEvent → Option Num
  unfolding numeric_attribute
  token_count event = elim (numeric_attribute event "total_token_count") [
    | some total ↦ some total
    | none ↦ sum_nonempty (
        listed (numeric_attribute event "input_token_count")
        ++ listed (numeric_attribute event "output_token_count"))
  ]
