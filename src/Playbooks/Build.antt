-- ===== src/Playbooks/Build.antt =====
-- playbooks.py: `build_finding` and `run_playbooks`. `gather` is `gather_evidence`, whose factory of
-- evidence is an interface; the citations of the context are passed along.
use cloudcause.Prelude.{
  ℕ, ◌+◌, String, Bool, true, false, not, ◌&&◌, ◌||◌, Option, none, some, List, [], ◌∷◌, ◌++◌, map,
  any, contains, leb, max, string_eq, ◌==◌, if◌then◌else◌,
}
use cloudcause.Prelude.Floats.{FloatOps, dec, ◌⊗◌, ◌⊘◌, round, min_f, max_f}
use cloudcause.Prelude.Text.{◌+++◌, two_digits}
use cloudcause.Contracts.Common.{Provider, aws, azure, gcp, days}
use cloudcause.Contracts.Analytics.{AnomalyCandidate, is_quantity_driven}
use cloudcause.Contracts.Investigation.{
  AgentMode, stub_mode, Message, formatted, about_rule, no_versioned_rule, rate_may_explain,
  data_incomplete, EvidenceItem, Finding, RuleCitation, RuleWarning, no_effective_date, is_nonempty,
}
use cloudcause.Contracts.Knowledge.{of_provider, RuleQueryResult, result_is_stale}
use cloudcause.Knowledge.Store.{select_rule, get_billing_rule}
use cloudcause.Playbooks.Spec.{
  PlaybookSpec, InvestigationContext, rule_date, data_is_incomplete, add_citation,
}
use cloudcause.Playbooks.Match.{select_playbook}
use cloudcause.Playbooks.Score.{score_confidence}

abbrev upper_name : Provider → String
upper_name aws = "AWS"
upper_name azure = "AZURE"
upper_name gcp = "GCP"

abbrev says_no_date : RuleWarning → Bool
says_no_date (no_effective_date _) = true
says_no_date _ = false

abbrev pub cited : Option RuleCitation → List RuleCitation
cited none = []
cited (some c) = c ∷ []

-- the resource that a finding names; a candidate of a service names none
abbrev pub resource_ids_of : Option String → List String
resource_ids_of none = []
resource_ids_of (some id) = if id == "" then [] else id ∷ []

abbrev template : {Num : Type 0} → String → AnomalyCandidate Num → Option Message → Message
template text candidate none = formatted text candidate.key
template text candidate (some message) = message

-- what a live agent may put in the place of what the playbook says
pub record Overrides (Num : Type 0) : Type 0 where
  pub agent_mode : AgentMode
  pub root_cause : Option Message
  pub recommendation : Option Message
  pub confidence : Option Num

abbrev pub no_overrides : {Num : Type 0} → Overrides Num
no_overrides = record {
  agent_mode = stub_mode;
  root_cause = none;
  recommendation = none;
  confidence = none;
}

abbrev warn_if : Bool → Message → List Message
warn_if b message = if b then message ∷ [] else []

module _ {Num : Type 0} ⦃F : FloatOps Num⦄ (lower : String → String) where
  -- the rule that interprets the candidate
  abbrev pub rule_for :
      AnomalyCandidate Num → PlaybookSpec Num → InvestigationContext Num → RuleQueryResult
  rule_for candidate spec ctx =
      get_billing_rule lower ctx.knowledge (of_provider ctx.provider) candidate.service_name
        (some spec.category) (some (rule_date ctx candidate)) spec.rule_type ctx.today

  -- the confidence and the doubt that the rule leaves
  abbrev by_rule : RuleQueryResult → Num → Bool → Num × Bool
  by_rule result confidence uncertain =
      if not result.found
      then (min_f confidence (dec 45 2), true)
      else if result_is_stale result
      then (min_f confidence (dec 6 1), true)
      else if any says_no_date result.warnings
      then (min_f confidence (dec 6 1), true)
      else (confidence, uncertain)

  abbrev rate_changed : AnomalyCandidate Num → PlaybookSpec Num → Bool
  rate_changed candidate spec =
      not (is_quantity_driven candidate) && not (spec.category == "pricing_change")

  -- `build_finding`
  unfoldable pub build_finding :
      AnomalyCandidate Num
      → PlaybookSpec Num
      → InvestigationContext Num
      → ℕ
      → List (EvidenceItem Num)
      → Overrides Num
      → Finding Num
  unfolding score_confidence rule_date data_is_incomplete is_quantity_driven two_digits select_rule
      result_is_stale
  build_finding candidate spec ctx index evidence overrides =
      let result = rule_for candidate spec ctx in
      let scored : Num = elim overrides.confidence [
        | none ↦ score_confidence spec evidence candidate
        | some c ↦ c
      ] in
      let (ruled, uncertain) = by_rule result scored spec.is_fallback in
      let confidence = if rate_changed candidate spec then min_f ruled (dec 7 1) else ruled in
      let incomplete = data_is_incomplete ctx in
      let daily_delta = candidate.absolute_change ⊘ dec (max (days ctx.current_period) 1) 0 in
      record {
        finding_id = upper_name ctx.provider +++ "-F" +++ two_digits index;
        provider = ctx.provider;
        category = spec.category;
        suspected_root_cause = template spec.root_cause candidate overrides.root_cause;
        affected_resources = resource_ids_of candidate.resource_id;
        evidence = evidence;
        confidence = round 3 (min_f (max_f confidence (dec 0 0)) (dec 1 0));
        actual_cost_increase = round 2 candidate.absolute_change;
        estimated_monthly_impact = round 2 (daily_delta ⊗ dec 304 1);
        recommendation = template spec.recommendation candidate overrides.recommendation;
        risk = spec.risk;
        requires_human_approval = true;
        candidate_id = some candidate.candidate_id;
        service_name = candidate.service_name;
        region_id = candidate.region_id;
        applied_rules = cited result.citation;
        is_uncertain = uncertain || incomplete;
        warnings =
            map about_rule result.warnings
            ++ (warn_if (not result.found) no_versioned_rule
                ++ (warn_if (rate_changed candidate spec) rate_may_explain
                    ++ warn_if incomplete data_incomplete));
        agent_mode = overrides.agent_mode;
      }

  -- wanted and candidate_id not in wanted
  abbrev pub is_wanted : List String → AnomalyCandidate Num → Bool
  is_wanted wanted candidate = not (is_nonempty wanted) || contains candidate.candidate_id wanted

  -- max_findings or ctx.task.max_findings
  abbrev pub limit_of : Option ℕ → InvestigationContext Num → ℕ
  limit_of none ctx = ctx.task.max_findings
  limit_of (some n) ctx = if leb n 0 then ctx.task.max_findings else n

  module _ (gather : AnomalyCandidate Num → PlaybookSpec Num → List (EvidenceItem Num))
      (specs : List (PlaybookSpec Num)) (ctx : InvestigationContext Num) where
    -- one finding of the loop, with the count of those before it
    abbrev pub finding_for : ℕ → AnomalyCandidate Num → Finding Num
    finding_for count candidate =
        let spec = select_playbook lower candidate specs ctx in
        build_finding candidate spec ctx (count + 1) (gather candidate spec) no_overrides

    unfoldable pub run_from : ℕ → ℕ → List (AnomalyCandidate Num) → List (Finding Num)
    unfolding build_finding select_playbook
    run_from limit count [] = []
    run_from limit count (c ∷ rest) =
        let skipped = run_from limit count rest in
        let others = run_from limit (count + 1) rest in
        if not (is_wanted ctx.task.candidate_ids c)
        then skipped
        else finding_for count c ∷ (if leb limit (count + 1) then [] else others)

    -- `run_playbooks`, and the citations that it leaves in the context
    unfoldable pub run_playbooks : Option ℕ → List (Finding Num)
    unfolding run_from
    run_playbooks max_findings = run_from (limit_of max_findings ctx) 0 ctx.candidates

    unfoldable pub citations_after : List (Finding Num) → List RuleCitation → List RuleCitation
    unfolding add_citation
    citations_after [] citations = citations
    citations_after (f ∷ rest) citations =
        citations_after rest (add_citation (first_rule f.applied_rules) citations)
      where
        first_rule : List RuleCitation → Option RuleCitation
        first_rule [] = none
        first_rule (r ∷ _) = some r
