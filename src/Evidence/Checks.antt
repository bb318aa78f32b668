-- ===== src/Evidence/Checks.antt =====
-- packages/evidence/src/cloudcause_evidence/validation.py: the nine checks that `validate_findings`
-- makes of one finding, in order, each a function on the copy it works on.
use text.Mathlib.Text.{starts_with}
use cloudcause.Prelude.{
  String, Bool, true, false, not, ◌&&◌, ◌||◌, Option, none, some, List, [], ◌∷◌, ◌++◌, map, ltb,
  length, any, select, contains, ◌==◌, string_eq, if◌then◌else◌,
}
use cloudcause.Prelude.Dict.{Dict, get, put, put_default}
use cloudcause.Prelude.Floats.{FloatOps, dec, ◌⊖◌, ◌⊗◌, ◌≼◌, ◌≺◌, round, min_f, max_f, abs_f}
use cloudcause.Contracts.Common.{Provider, aws, azure, gcp, provider_eq}
use cloudcause.Contracts.Analytics.{AnomalyCandidate, PeriodComparison, all_candidates}
use cloudcause.Contracts.Investigation.{
  unexplained_on, review_manually, unconfirmed, truthy, is_nonempty, RuleCitation, EvidenceItem,
  Finding, Severity, info, warning, error, IssueCode, missing_evidence, evidence_without_provenance,
  unsupported_resource_id, cost_attribution_mismatch, unknown_candidate, missing_rule_citation,
  stale_billing_knowledge, rule_missing_effective_date, rule_applied_retroactively,
  rule_without_source, insufficient_corroboration, untrusted_text_in_evidence,
  duplicate_resource_attribution, cause_unsupported_by_available_sources, ValidationIssue,
}

abbrev pub corroborating_sources : List String
corroborating_sources = "metric" ∷ "audit" ∷ "recommendation" ∷ []

abbrev pub cause_supporting_sources : List String
cause_supporting_sources = "metric" ∷ "audit" ∷ "inventory" ∷ "recommendation" ∷ []

abbrev pub fallback_category : String
fallback_category = "unexplained_increase"

-- `missing_cause_sources`
unfoldable pub missing_cause_sources : List String → List String
missing_cause_sources available =
    if any (λ s. contains s available) cause_supporting_sources
    then []
    else cause_supporting_sources

-- f"{provider}:"
abbrev pub provider_prefix : Provider → String
provider_prefix aws = "aws:"
provider_prefix azure = "azure:"
provider_prefix gcp = "gcp:"

-- The test of check 3 on one resource id.
abbrev pub is_known : Provider → List String → String → Bool
is_known provider allowed value =
    contains value allowed || starts_with value (provider_prefix provider)

-- the rule starts after the date it was selected for
abbrev pub is_retroactive : RuleCitation → Bool
is_retroactive rule = elim rule.valid_from [
  | none ↦ false
  | some from ↦ elim rule.selected_for_date [ none ↦ false | some day ↦ ltb day from ]
]

abbrev pub first_or : List String → String → String
first_or [] d = d
first_or (x ∷ _) d = x

module _ (Num : Type 0) where
  -- The loop's local variables: `working`, `issues`, `drop`.
  pub record Work : Type 0 where
    pub working : Finding Num
    pub issues : List ValidationIssue
    pub drop : Bool

module _ {Num : Type 0} where
  -- `_candidate_index`: a later candidate with the same id wins.
  unfoldable pub index_candidates :
      List (AnomalyCandidate Num)
      → Dict String (AnomalyCandidate Num)
      → Dict String (AnomalyCandidate Num)
  index_candidates [] d = d
  index_candidates (c ∷ rest) d = index_candidates rest (put c.candidate_id c d)

  unfoldable pub candidate_index :
      Option (PeriodComparison Num) → Dict String (AnomalyCandidate Num)
  unfolding index_candidates
  candidate_index none = []
  candidate_index (some comparison) = index_candidates (all_candidates comparison) []

  -- the closure `add`
  abbrev pub add : IssueCode → Severity → Work Num → Work Num
  add code severity w = record w {
    issues =
        w.issues
        ++ record {
          code = code;
          severity = severity;
          finding_id = w.working.finding_id;
          provider = w.working.provider;
        }
          ∷ [];
  }

  abbrev pub set_working : Finding Num → Work Num → Work Num
  set_working f w = record w { working = f }

  -- 1 and 2: evidence exists and is traceable
  unfoldable pub check_evidence : Work Num → Work Num
  check_evidence w =
      if not (is_nonempty w.working.evidence)
      then record (add missing_evidence error w) { drop = true }
      else if any (λ (e : EvidenceItem Num). not (truthy e.query_reference)) w.working.evidence
      then add evidence_without_provenance warning w
      else w

  -- 7: untrusted text is flagged
  unfoldable pub check_untrusted : Work Num → Work Num
  check_untrusted w =
      if any (λ (e : EvidenceItem Num). e.contains_untrusted_text) w.working.evidence
      then add untrusted_text_in_evidence info w
      else w

  -- 8: one resource of the loop, then the loop
  unfoldable pub check_duplicate :
      String → Dict String String × Work Num → Dict String String × Work Num
  check_duplicate resource_id (seen, w) = (
    put_default resource_id w.working.finding_id seen,
    elim (get resource_id seen) [
      | none ↦ w
      | some previous ↦
          if not (previous == "") && not (previous == w.working.finding_id)
          then add duplicate_resource_attribution info w
          else w
    ],
  )

  unfoldable pub check_duplicates :
      List String → Dict String String × Work Num → Dict String String × Work Num
  check_duplicates [] acc = acc
  check_duplicates (r ∷ rest) acc = check_duplicates rest (check_duplicate r acc)

module _ {Num : Type 0} ⦃F : FloatOps Num⦄ where
  -- working.confidence = min(working.confidence, cap)
  abbrev pub cap_confidence : Num → Finding Num → Finding Num
  cap_confidence limit f = record f { confidence = min_f f.confidence limit }

  abbrev pub mark_uncertain : Finding Num → Finding Num
  mark_uncertain f = record f { is_uncertain = true }

  -- 3: resource ids exist in the provider's data
  unfoldable pub check_resources : Dict Provider (List String) → Work Num → Work Num
  check_resources known w = elim (get w.working.provider known) [
    | none ↦ w
    | some allowed ↦
        if is_nonempty allowed
          && any (λ v. not (is_known w.working.provider allowed v)) w.working.affected_resources
        then set_working
            (cap_confidence (dec 4 1) (
              mark_uncertain (record (w.working) {
                affected_resources =
                    select (is_known w.working.provider allowed) w.working.affected_resources;
              })))
            (add unsupported_resource_id error w)
        else w
  ]

  -- drift > max(ATTRIBUTION_TOLERANCE * max(abs(expected), 1.0), 0.02)
  abbrev pub drifts : Num → Num → Bool
  drifts claimed expected =
      max_f (dec 1 2 ⊗ max_f (abs_f expected) (dec 1 0)) (dec 2 2) ≺ abs_f (claimed ⊖ expected)

  -- 4: the claimed increase matches the measured one
  unfoldable pub check_attribution : Dict String (AnomalyCandidate Num) → Work Num → Work Num
  check_attribution candidates w =
      elim (get (elim w.working.candidate_id [ none ↦ "" | some c ↦ c ]) candidates) [
        | some candidate ↦
            if drifts w.working.actual_cost_increase candidate.absolute_change
            then set_working
                (mark_uncertain
                  (record (w.working) { actual_cost_increase = round 2 candidate.absolute_change }))
                (add cost_attribution_mismatch error w)
            else w
        | none ↦ if truthy w.working.candidate_id then add unknown_candidate warning w else w
      ]

  -- 5: the tests on one rule, in order
  abbrev pub check_stale : RuleCitation → Work Num → Work Num
  check_stale rule w =
      if rule.is_stale
      then set_working (cap_confidence (dec 6 1) (mark_uncertain w.working))
          (add stale_billing_knowledge warning w)
      else w

  abbrev pub check_effective : RuleCitation → Work Num → Work Num
  check_effective rule w = elim rule.valid_from [
    | none ↦
        set_working (cap_confidence (dec 6 1) (mark_uncertain w.working))
          (add rule_missing_effective_date warning w)
    | some _ ↦
        if is_retroactive rule
        then record (add rule_applied_retroactively error w) { drop = true }
        else w
  ]

  abbrev pub check_source : RuleCitation → Work Num → Work Num
  check_source rule w = if rule.source_url == "" then add rule_without_source error w else w

  unfoldable pub check_rule : RuleCitation → Work Num → Work Num
  check_rule rule w = check_source rule (check_effective rule (check_stale rule w))

  unfoldable pub check_each_rule : List RuleCitation → Work Num → Work Num
  unfolding check_rule
  check_each_rule [] w = w
  check_each_rule (rule ∷ rest) w = check_each_rule rest (check_rule rule w)

  unfoldable pub check_rules : Work Num → Work Num
  unfolding check_each_rule
  check_rules w =
      if is_nonempty w.working.applied_rules
      then check_each_rule w.working.applied_rules w
      else set_working (cap_confidence (dec 45 2) (mark_uncertain w.working))
          (add missing_rule_citation warning w)

  -- evidence that backs a high confidence: three items, one of a corroborating source
  abbrev pub is_corroborated : Finding Num → Bool
  is_corroborated f =
      not (ltb (length f.evidence) 3)
      && any (λ s. contains s (map (λ (e : EvidenceItem Num). e.source_type) f.evidence))
          corroborating_sources

  -- 6: high confidence needs corroboration
  unfoldable pub check_corroboration : Work Num → Work Num
  check_corroboration w =
      if (dec 8 1 ≼ w.working.confidence) && not (is_corroborated w.working)
      then set_working (cap_confidence (dec 7 1) w.working)
          (add insufficient_corroboration warning w)
      else w

  -- the resource, service or category that the rewritten text names
  abbrev pub target_of : Finding Num → String
  target_of f =
      first_or f.affected_resources
        (elim f.service_name [ none ↦ f.category | some s ↦ if s == "" then f.category else s ])

  abbrev pub withdraw_cause : String → Work Num → Work Num
  withdraw_cause target w =
      if w.working.category == fallback_category
      then w
      else set_working
          (record (w.working) {
            category = fallback_category;
            suspected_root_cause = unexplained_on target;
            recommendation = review_manually;
          })
          (add cause_unsupported_by_available_sources warning w)

  abbrev pub unconfirm : List String → String → Finding Num → Finding Num
  unconfirm missing target f =
      cap_confidence (dec 4 1)
        (record f { is_uncertain = true; warnings = f.warnings ++ unconfirmed missing target ∷ [] })

  -- 9: a cause needs data that can show a cause
  unfoldable pub check_cause : List String → Work Num → Work Num
  unfolding missing_cause_sources
  check_cause available w =
      let missing = missing_cause_sources available in
      let target = target_of w.working in
      if is_nonempty missing
      then (let w' = withdraw_cause target w in
          set_working (unconfirm missing target w'.working) w')
      else w
