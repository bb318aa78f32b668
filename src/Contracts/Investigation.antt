-- ===== src/Contracts/Investigation.antt =====
-- packages/contracts/src/cloudcause_contracts/{investigation,knowledge,report}.py: findings, their
-- evidence, the rules they cite, and the issues of validation. A text that the code builds from
-- values is a constructor of `Message` that holds these values.
use cloudcause.Prelude.{
  ℕ, String, Bool, true, false, not, ◌&&◌, Option, none, some, List, [], ◌∷◌, all, select, ◌==◌,
  string_eq, if◌then◌else◌,
}
use cloudcause.Prelude.Floats.{FloatOps, dec, ◌≼◌, round}
use cloudcause.Contracts.Common.{Provider, DataOrigin}

-- `AgentMode`, `Risk`, `WorkerStatus`, `ValidationSeverity`
pub data AgentMode : Type 0 where
  stub_mode live_mode : AgentMode

pub data Risk : Type 0 where
  low medium high : Risk

pub data WorkerStatus : Type 0 where
  worker_ok worker_partial worker_failed worker_skipped : WorkerStatus

pub data Severity : Type 0 where
  info warning error : Severity

-- the warnings of a look-up, with the rule that they name
pub data RuleWarning : Type 0 where
  used_generic no_rule : RuleWarning
  no_effective_date none_effective review_overdue marked_deprecated : String → RuleWarning

pub data Message : Type 0 where
  plain : String → Message
  -- the cause that step 9 of validation writes, with its target
  unexplained_on : String → Message
  -- UNSUPPORTED_CAUSE_RECOMMENDATION
  review_manually : Message
  -- the warning of step 9: the absent source types and the target
  unconfirmed : List String → String → Message
  -- what a playbook's template says of a candidate, and the warnings of a playbook's finding
  formatted : String → String → Message
  about_rule : RuleWarning → Message
  no_versioned_rule rate_may_explain data_incomplete : Message

-- x is not None and x is not empty
abbrev pub truthy : Option String → Bool
truthy none = false
truthy (some s) = not (s == "")

-- `RuleCitation`, the fields that the components read
pub record RuleCitation : Type 0 where
  pub rule_id : String
  pub valid_from : Option ℕ
  pub valid_to : Option ℕ
  pub reviewed_at : Option ℕ
  pub source_url : String
  pub is_stale : Bool
  pub selected_for_date : Option ℕ

module _ (Num : Type 0) where
  pub record EvidenceItem : Type 0 where
    pub evidence_id : String
    pub provider : Provider
    pub source_type : String
    pub source_id : String
    pub observed_at : ℕ
    pub statement : Message
    pub numeric_value : Option Num
    pub numeric_unit : Option String
    pub query_reference : Option String
    pub data_through : Option ℕ
    pub origin : DataOrigin
    pub is_fixture : Bool
    pub contains_untrusted_text : Bool

  pub record Finding : Type 0 where
    pub finding_id : String
    pub provider : Provider
    pub category : String
    pub suspected_root_cause : Message
    pub affected_resources : List String
    pub evidence : List EvidenceItem
    pub confidence : Num
    pub actual_cost_increase : Num
    pub estimated_monthly_impact : Num
    pub recommendation : Message
    pub risk : Risk
    pub requires_human_approval : Bool
    pub candidate_id : Option String
    pub service_name : Option String
    pub region_id : Option String
    pub applied_rules : List RuleCitation
    pub is_uncertain : Bool
    pub warnings : List Message
    pub agent_mode : AgentMode

-- `ValidationIssue.code`
pub data IssueCode : Type 0 where
  missing_evidence evidence_without_provenance unsupported_resource_id : IssueCode
  cost_attribution_mismatch unknown_candidate missing_rule_citation : IssueCode
  stale_billing_knowledge rule_missing_effective_date rule_applied_retroactively : IssueCode
  rule_without_source insufficient_corroboration untrusted_text_in_evidence : IssueCode
  duplicate_resource_attribution cause_unsupported_by_available_sources : IssueCode

-- `ValidationIssue`, without its `detail` text
pub record ValidationIssue : Type 0 where
  pub code : IssueCode
  pub severity : Severity
  pub finding_id : String
  pub provider : Provider

-- `Finding._confidence_range`: `none` is the ValueError
unfoldable pub confidence_range : {Num : Type 0} ⦃F : FloatOps Num⦄ → Num → Option Num
confidence_range value =
    if (dec 0 0 ≼ value) && (value ≼ dec 1 0) then some (round 3 value) else none

-- `ProviderStatus`, without the time that the work took
pub record ProviderStatus : Type 0 where
  pub provider : Provider
  pub status : WorkerStatus
  pub message : String
  pub data_through : Option ℕ
  pub origin : DataOrigin
  pub finding_count : ℕ
  pub agent_mode : AgentMode

abbrev pub is_live : AgentMode → Bool
is_live stub_mode = false
is_live live_mode = true

abbrev pub was_executed : ProviderStatus → Bool
was_executed s = elim s.status [ worker_skipped ↦ false | _ ↦ true ]

abbrev pub is_nonempty {ℓ} : {A : Type ℓ} → List A → Bool
is_nonempty [] = false
is_nonempty (_ ∷ _) = true

-- `determine_effective_agent_mode`
unfoldable pub determine_effective_agent_mode : AgentMode → List ProviderStatus → AgentMode
determine_effective_agent_mode requested statuses =
    let executed = select was_executed statuses in
    if is_live requested && (is_nonempty executed && all (λ s. is_live s.agent_mode) executed)
    then live_mode
    else stub_mode
