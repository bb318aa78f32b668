-- ===== src/Playbooks/Tests.antt =====
-- A candidate for which one playbook fits, with one piece of evidence.
use cloudcause.Prelude.{
  ◌≡◌, refl, String, true, false, none, some, List, [], ◌∷◌, map, take, select, max,
}
use cloudcause.Prelude.Floats.{dec}
use cloudcause.Prelude.Micro.{Micro, micro_ops}
use cloudcause.Contracts.Common.{aws, upload}
use cloudcause.Contracts.Analytics.{AnomalyCandidate, resource}
use cloudcause.Contracts.Investigation.{medium, EvidenceItem, Finding}
use cloudcause.Contracts.Request.{Provenance}
use cloudcause.Contracts.Report.{confirm_completeness}
use cloudcause.Playbooks.Spec.{PlaybookSpec, InvestigationContext, fallback_playbook}
use cloudcause.Playbooks.Match.{select_playbook}
use cloudcause.Playbooks.Build.{is_wanted, run_playbooks}
use cloudcause.Playbooks.Covers.{Pairwise, Explains, run_playbooks-Explains}

abbrev grown : AnomalyCandidate Micro
grown = record {
  candidate_id = "aws-cand-00";
  provider = aws;
  dimension = resource;
  key = "i-1";
  billing_account_id = none;
  service_name = some "ec2";
  service_category = some "compute";
  region_id = none;
  resource_id = some "i-1";
  resource_name = none;
  sku_ids = [];
  tags = [];
  baseline_cost = dec 10 0;
  current_cost = dec 90 0;
  expected_baseline_cost = dec 10 0;
  absolute_change = dec 80 0;
  percent_change = some (dec 800 0);
  baseline_daily_average = dec 5 0;
  current_daily_average = dec 45 0;
  baseline_quantity = dec 1 0;
  current_quantity = dec 9 0;
  quantity_percent_change = some (dec 800 0);
  unit_cost_baseline = some (dec 10 0);
  unit_cost_current = some (dec 10 0);
  first_spike_date = some 31;
  is_new = false;
  currency = "USD";
}

abbrev growth : PlaybookSpec Micro
growth = record fallback_playbook {
  category = "compute_growth";
  risk = medium;
  service_patterns = "ec2" ∷ [];
  requires_quantity_growth = true;
  priority = 50;
  is_fallback = false;
  max_confidence = dec 92 2;
}

abbrev billing : Provenance
billing = record { provider = aws; source = "billing"; data_through = 40; origin = upload }

abbrev ctx : InvestigationContext Micro
ctx = record {
  provider = aws;
  current_period = record { start = 31; end = 32 };
  task = record {
    provider = aws;
    question = confirm_completeness aws;
    candidate_ids = "aws-cand-00" ∷ [];
    focus_areas = [];
    must_explain = [];
    max_findings = 1;
  };
  candidates = grown ∷ [];
  bundle = record {
    costs = [];
    resources = [];
    metrics = [];
    audit_events = [];
    recommendations = [];
    costs_source = billing;
    other_sources = [];
  };
  knowledge = record { rules = []; review_max_age_days = 30; supported_focus = "1.4" };
  period_end = 32;
  today = 50;
}

abbrev as_written : String → String
as_written s = s

abbrev nothing_gathered : AnomalyCandidate Micro → PlaybookSpec Micro → List (EvidenceItem Micro)
nothing_gathered candidate spec = []

growth_is_selected :
    (select_playbook as_written grown (growth ∷ fallback_playbook ∷ []) ctx).category
    ≡ "compute_growth"
unfolding select_playbook
growth_is_selected = refl

-- the floor, a full separation and a steady rate
scored_confidence :
    map
      (λ (f : Finding Micro). f.confidence)
      (run_playbooks as_written nothing_gathered (growth ∷ []) ctx none)
    ≡ dec 32 2 ∷ []
unfolding run_playbooks
scored_confidence = refl

run_playbooks-Explains_example :
    Pairwise
      (Explains as_written ctx)
      (run_playbooks as_written nothing_gathered (growth ∷ []) ctx none)
      (take (max 1 1) (select (is_wanted as_written ("aws-cand-00" ∷ [])) (grown ∷ [])))
run_playbooks-Explains_example =
    run_playbooks-Explains as_written ctx nothing_gathered (growth ∷ []) none
