-- ===== src/Contracts/Knowledge.antt =====
-- packages/contracts/src/cloudcause_contracts/knowledge.py: billing rules and the answer of a look-up.
use cloudcause.Prelude.{
  ℕ, ◌≡◌, ◌↔◌, String, Bool, true, false, Option, none, some, List, arith, leb, ltb, nat_beq, Eq,
  if◌then◌else◌,
}
use cloudcause.Contracts.Common.{Provider, aws, azure, gcp}
use cloudcause.Contracts.Investigation.{RuleCitation, RuleWarning}
pub use cloudcause.Contracts.Investigation.{
  RuleWarning, used_generic, no_rule, no_effective_date, none_effective, review_overdue,
  marked_deprecated,
}

-- `RuleType`
pub data RuleType : Type 0 where
  cost_driver data_freshness export_schema api_deprecation pricing_source billing_change
        focus_version :
      RuleType

abbrev rule_type_code : RuleType → ℕ
rule_type_code cost_driver = 0
rule_type_code data_freshness = 1
rule_type_code export_schema = 2
rule_type_code api_deprecation = 3
rule_type_code pricing_source = 4
rule_type_code billing_change = 5
rule_type_code focus_version = 6

abbrev rule_type_same : RuleType → RuleType → Bool
rule_type_same a b = nat_beq (rule_type_code a) (rule_type_code b)

pub rule_type_same_iff : (a b : RuleType) → (rule_type_same a b ≡ true) ↔ (a ≡ b)
rule_type_same_iff a b = ground arith

instance abbrev pub rule_type_eq : Eq RuleType
rule_type_eq = record { is_same = rule_type_same; same_iff = rule_type_same_iff }

-- `Provider | Literal["focus"]`
pub data RuleProvider : Type 0 where
  of_provider : Provider → RuleProvider
  of_focus : RuleProvider

abbrev rule_provider_code : RuleProvider → ℕ
rule_provider_code (of_provider aws) = 0
rule_provider_code (of_provider azure) = 1
rule_provider_code (of_provider gcp) = 2
rule_provider_code of_focus = 3

abbrev rule_provider_same : RuleProvider → RuleProvider → Bool
rule_provider_same a b = nat_beq (rule_provider_code a) (rule_provider_code b)

pub rule_provider_same_iff : (a b : RuleProvider) → (rule_provider_same a b ≡ true) ↔ (a ≡ b)
rule_provider_same_iff a b = ground arith

instance abbrev pub rule_provider_eq : Eq RuleProvider
rule_provider_eq = record { is_same = rule_provider_same; same_iff = rule_provider_same_iff }

-- `SupportStatus`
pub data SupportStatus : Type 0 where
  supported provisional deprecated unsupported : SupportStatus

-- `BillingRule`, the fields that the store reads; `version` is str(data.get("version")).
pub record BillingRule : Type 0 where
  pub id : String
  pub provider : RuleProvider
  pub rule_type : RuleType
  pub service : Option String
  pub valid_from : Option ℕ
  pub valid_to : Option ℕ
  pub reviewed_at : Option ℕ
  pub matches_services : List String
  pub matches_categories : List String
  pub source_url : String
  pub confidence : SupportStatus
  pub version : String

-- `BillingRule.effective_on`
unfoldable pub effective_on : BillingRule → ℕ → Bool
effective_on rule day = elim rule.valid_from [
  | none ↦ false
  | some from ↦
      if ltb day from then false else elim rule.valid_to [ none ↦ true | some to ↦ leb day to ]
]

-- `RuleQueryResult`
pub record RuleQueryResult : Type 0 where
  pub found : Bool
  pub rule : Option BillingRule
  pub citation : Option RuleCitation
  pub warnings : List RuleWarning
  pub requested_provider : Option RuleProvider
  pub requested_service : Option String
  pub requested_date : Option ℕ

-- `KnowledgeProvenance`
pub record KnowledgeProvenance : Type 0 where
  pub focus_version : String
  pub rule_ids : List String
  pub oldest_review_date : Option ℕ
  pub newest_review_date : Option ℕ
  pub stale_rule_ids : List String
  pub review_max_age_days : ℕ

-- `RuleQueryResult.is_stale`
unfoldable pub result_is_stale : RuleQueryResult → Bool
result_is_stale result = elim result.citation [ none ↦ false | some c ↦ c.is_stale ]
