-- ===== src/Playbooks/Spec.antt =====
-- playbooks.py: `PlaybookSpec` and the fallback, and of context.py what the playbooks read. A template is
-- a text; `period_end` is `period_end_datetime()`, and today's day is part of the context.
use cloudcause.Prelude.{
  ℕ, String, Bool, true, false, Option, none, some, List, [], ◌∷◌, all, not, ltb, string_eq, ◌==◌,
  if◌then◌else◌, ◌++◌,
}
use cloudcause.Prelude.Floats.{FloatOps, dec}
use cloudcause.Contracts.Common.{Provider, DateRange}
use cloudcause.Contracts.Analytics.{AnomalyCandidate}
use cloudcause.Contracts.Investigation.{Risk, low, RuleCitation}
use cloudcause.Contracts.Knowledge.{RuleType, cost_driver}
use cloudcause.Contracts.Report.{ProviderTask}
use cloudcause.Contracts.Bundle.{ProviderDataBundle, bundle_data_through}
use cloudcause.Knowledge.Store.{KnowledgeStore}

-- `PlaybookSpec`
pub record PlaybookSpec (Num : Type 0) : Type 0 where
  pub category : String
  pub root_cause : String
  pub recommendation : String
  pub risk : Risk
  pub rule_type : RuleType
  pub service_patterns : List String
  pub sku_patterns : List String
  pub resource_type_patterns : List String
  pub metric_names : List String
  pub audit_event_patterns : List String
  pub low_utilization_metrics : List String
  pub low_utilization_threshold : Num
  pub requires_new_spend : Bool
  pub requires_quantity_growth : Bool
  pub requires_rate_change : Bool
  pub requires_missing_owner : Bool
  pub priority : ℕ
  pub is_fallback : Bool
  pub max_confidence : Num

-- `InvestigationContext`
pub record InvestigationContext (Num : Type 0) : Type 0 where
  pub provider : Provider
  pub current_period : DateRange
  pub task : ProviderTask Num
  pub candidates : List (AnomalyCandidate Num)
  pub bundle : ProviderDataBundle Num
  pub knowledge : KnowledgeStore
  pub period_end : ℕ
  pub today : ℕ

module _ {Num : Type 0} ⦃F : FloatOps Num⦄ where
  -- FALLBACK_PLAYBOOK
  abbrev pub fallback_playbook : PlaybookSpec Num
  fallback_playbook = record {
    category = "unexplained_increase";
    root_cause =
        "Material cost increase on {key} that no known waste pattern explains; the cost movement is confirmed but the mechanism is not";
    recommendation =
        "Review this resource or service manually. CloudCause can confirm the cost change and the surrounding activity, but not the root cause.";
    risk = low;
    rule_type = cost_driver;
    service_patterns = [];
    sku_patterns = [];
    resource_type_patterns = [];
    metric_names = [];
    audit_event_patterns = [];
    low_utilization_metrics = [];
    low_utilization_threshold = dec 5 0;
    requires_new_spend = false;
    requires_quantity_growth = false;
    requires_rate_change = false;
    requires_missing_owner = false;
    priority = 99;
    is_fallback = true;
    max_confidence = dec 4 1;
  }

module _ {Num : Type 0} where
  -- `rule_date`
  unfoldable pub rule_date : InvestigationContext Num → AnomalyCandidate Num → ℕ
  rule_date ctx candidate = elim candidate.first_spike_date [
    | none ↦ ctx.current_period.end
    | some day ↦ day
  ]

  -- `data_is_incomplete`
  unfoldable pub data_is_incomplete : InvestigationContext Num → Bool
  unfolding bundle_data_through
  data_is_incomplete ctx = ltb (bundle_data_through ctx.bundle) ctx.period_end

-- `add_citation`
unfoldable pub add_citation : Option RuleCitation → List RuleCitation → List RuleCitation
add_citation none citations = citations
add_citation (some c) citations =
    if all (λ (other : RuleCitation). not (other.rule_id == c.rule_id)) citations
    then citations ++ c ∷ []
    else citations
