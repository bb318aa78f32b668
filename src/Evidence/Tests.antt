-- ===== src/Evidence/Tests.antt =====
-- The validation of two findings, one with evidence and one without.
use mathlib.Core.List.{Perm}
use cloudcause.Prelude.{
  map, select, not, ◌≡◌, String, true, false, Option, none, some, List, [], ◌∷◌, All,
}
use cloudcause.Prelude.Floats.{dec}
use cloudcause.Prelude.Micro.{Micro, micro_ops, micro_laws}
use cloudcause.Contracts.Common.{Provider, aws, upload}
use cloudcause.Contracts.Analytics.{PeriodComparison}
use cloudcause.Contracts.Investigation.{stub_mode, low, plain, EvidenceItem, Finding, RuleCitation}
use cloudcause.Evidence.Checks.{candidate_index}
use cloudcause.Evidence.Validate.{Context, check_finding, validate_findings}
use cloudcause.Evidence.Validate.Publishable.{IsPublishable}
use cloudcause.Evidence.Validate.Published.{validate_findings-IsPublishable}
use cloudcause.Evidence.Validate.Counts.{
  check_finding-drop, is_defective, claim_of, validate_findings-Partition,
}
use cloudcause.Evidence.Ranking.{IsRanked, rank_findings, rank_findings-IsRanked}

abbrev item : EvidenceItem Micro
item = record {
  evidence_id = "e1";
  provider = aws;
  source_type = "metric";
  source_id = "cpu";
  observed_at = 3;
  statement = plain "the load doubled";
  numeric_value = none;
  numeric_unit = none;
  query_reference = some "upload:aws/metrics";
  data_through = some 3;
  origin = upload;
  is_fixture = false;
  contains_untrusted_text = false;
}

abbrev rule : RuleCitation
rule = record {
  rule_id = "r1";
  valid_from = some 1;
  valid_to = none;
  reviewed_at = some 2;
  source_url = "https://example.org/pricing";
  is_stale = false;
  selected_for_date = some 2;
}

abbrev claim : String → List (EvidenceItem Micro) → Finding Micro
claim id evidence = record {
  finding_id = id;
  provider = aws;
  category = "compute";
  suspected_root_cause = plain "more load";
  affected_resources = "i-1" ∷ [];
  evidence = evidence;
  confidence = dec 9 1;
  actual_cost_increase = dec 120 0;
  estimated_monthly_impact = dec 300 0;
  recommendation = plain "resize";
  risk = low;
  requires_human_approval = true;
  candidate_id = none;
  service_name = some "EC2";
  region_id = none;
  applied_rules = rule ∷ [];
  is_uncertain = false;
  warnings = [];
  agent_mode = stub_mode;
}

abbrev claims : List (Finding Micro)
claims = claim "f1" (item ∷ []) ∷ claim "f2" [] ∷ []

abbrev known : List (Provider × List String)
known = (aws, "i-1" ∷ []) ∷ []

abbrev no_comparison : Option (PeriodComparison Micro)
no_comparison = none

abbrev supplied : Option (List (Provider × List String))
supplied = some ((aws, "cost" ∷ "metric" ∷ []) ∷ [])

abbrev context : Context Micro
context = record { known = known; candidates = candidate_index no_comparison; available = supplied }

validate_findings-IsPublishable_example :
    All (IsPublishable context) (validate_findings claims known no_comparison supplied).findings
validate_findings-IsPublishable_example =
    validate_findings-IsPublishable micro_laws claims known no_comparison supplied

validate_findings-Partition_example :
    (map claim_of (validate_findings claims known no_comparison supplied).findings
      ≡ map claim_of (select (λ f. not (is_defective f)) claims))
    × (map claim_of (validate_findings claims known no_comparison supplied).dropped
        ≡ map claim_of (select is_defective claims))
validate_findings-Partition_example =
    validate_findings-Partition claims known no_comparison supplied

check_finding-drop_example : (check_finding context [] (claim "f2" [])).1.drop ≡ true
check_finding-drop_example = check_finding-drop context [] (claim "f2" [])

rank_findings-IsRanked_example :
    Perm (rank_findings claims) claims × IsRanked (rank_findings claims)
rank_findings-IsRanked_example = rank_findings-IsRanked micro_laws claims
