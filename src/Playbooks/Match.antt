-- ===== src/Playbooks/Match.antt =====
-- playbooks.py: which playbook explains a candidate. `lower` is Python's `str.lower`.
use cloudcause.Prelude.{
  ℕ, ◌+◌, String, Bool, true, false, not, ◌&&◌, ◌||◌, Option, none, some, List, [], ◌∷◌, select,
  any, contains, ltb, nat_eq, string_eq, ◌==◌, if◌then◌else◌,
}
use cloudcause.Prelude.Dict.{Dict, get, put}
use cloudcause.Prelude.Floats.{FloatOps, ◌≼◌}
use cloudcause.Prelude.Sorting.{sort_by}
use cloudcause.Prelude.Text.{has_part}
use cloudcause.Contracts.Common.{within}
use cloudcause.Contracts.Analytics.{AnomalyCandidate, is_quantity_driven}
use cloudcause.Contracts.Investigation.{truthy, is_nonempty}
use cloudcause.Contracts.Records.{CloudResource, AuditEvent}
use cloudcause.Contracts.Bundle.{MetricSeries, resource_with, metrics_for, window_average}
use cloudcause.Playbooks.Spec.{PlaybookSpec, InvestigationContext, fallback_playbook}

abbrev pub owner_tag_keys : List String
owner_tag_keys = "owner" ∷ "Owner" ∷ "team" ∷ "Team" ∷ "cost-center" ∷ "costCenter" ∷ []

-- tags.update(other)
abbrev update : Dict String String → Dict String String → Dict String String
update tags [] = tags
update tags ((k, v) ∷ rest) = update (put k v tags) rest

-- the score of a step, if the steps before it gave one
infixl 60 ◌then_step◌
abbrev ◌then_step◌ : Option ℕ → (ℕ → Option ℕ) → Option ℕ
none then_step f = none
(some score) then_step f = f score

-- a filter that is given asks for the test, and adds to the score
abbrev demand : Bool → Bool → ℕ → ℕ → Option ℕ
demand given passes points score =
    if given then (if passes then some (score + points) else none) else some score

-- `_matches_any`
unfoldable pub matches_any : (String → String) → Option String → List String → Bool
matches_any lower none patterns = false
matches_any lower (some value) patterns =
    if value == "" then false else any (λ pattern. has_part (lower pattern) (lower value)) patterns

abbrev bonus : Bool → ℕ → ℕ → ℕ
bonus earned points score = if earned then score + points else score

module _ {Num : Type 0} ⦃F : FloatOps Num⦄ (lower : String → String) where
  -- the resource of the candidate, if it has one
  abbrev resource_of : AnomalyCandidate Num → InvestigationContext Num → Option CloudResource
  resource_of candidate ctx = elim candidate.resource_id [
    | none ↦ none
    | some id ↦ if id == "" then none else resource_with ctx.bundle id
  ]

  -- `_has_owner`
  unfoldable pub has_owner : AnomalyCandidate Num → InvestigationContext Num → Bool
  unfolding get put resource_with
  has_owner candidate ctx =
      let tags : Dict String String = elim (resource_of candidate ctx) [
        | none ↦ candidate.tags
        | some r ↦ update candidate.tags r.tags
      ] in
      any (λ key. truthy (get key tags)) owner_tag_keys

  -- `_series_for`
  unfoldable pub series_for :
      AnomalyCandidate Num → InvestigationContext Num → List (MetricSeries Num)
  unfolding metrics_for
  series_for candidate ctx = elim candidate.resource_id [
    | none ↦ []
    | some id ↦ if id == "" then [] else metrics_for ctx.bundle id
  ]

  -- `_low_utilization`
  unfoldable pub low_utilization :
      PlaybookSpec Num → AnomalyCandidate Num → InvestigationContext Num → Bool
  unfolding series_for matches_any window_average
  low_utilization spec candidate ctx =
      any
        (λ (s : MetricSeries Num).
          matches_any lower (some s.metric_name) spec.low_utilization_metrics
          && (window_average s ctx.current_period.start ctx.current_period.end
              ≼ spec.low_utilization_threshold))
        (series_for candidate ctx)

  -- `_matching_events`: without a resource every event of the trail may match
  abbrev event_matches :
      PlaybookSpec Num → AnomalyCandidate Num → InvestigationContext Num → AuditEvent → Bool
  event_matches spec candidate ctx e =
      elim candidate.resource_id [
        | none ↦ true
        | some id ↦ (id == "") || contains id e.resource_ids
      ]
      && ((not (is_nonempty spec.audit_event_patterns)
            || matches_any lower (some e.event_name) spec.audit_event_patterns)
          && within ctx.current_period e.event_date)

  unfoldable pub events_matching :
      PlaybookSpec Num → AnomalyCandidate Num → InvestigationContext Num → List AuditEvent
  unfolding matches_any sort_by
  events_matching spec candidate ctx =
      sort_by (λ (a b : AuditEvent). ltb a.event_time b.event_time)
        (select (event_matches spec candidate ctx) ctx.bundle.audit_events)

  abbrev service_matches : PlaybookSpec Num → AnomalyCandidate Num → Bool
  service_matches spec candidate =
      matches_any lower candidate.service_name spec.service_patterns
      || matches_any lower candidate.service_category spec.service_patterns

  abbrev type_matches : PlaybookSpec Num → AnomalyCandidate Num → InvestigationContext Num → Bool
  type_matches spec candidate ctx = elim (resource_of candidate ctx) [
    | none ↦ false
    | some r ↦ matches_any lower (some r.resource_type) spec.resource_type_patterns
  ]

  abbrev rate_or_growth : PlaybookSpec Num → AnomalyCandidate Num → ℕ → Option ℕ
  rate_or_growth spec candidate score =
      if spec.requires_rate_change
      then (if is_quantity_driven candidate then none else some (score + 3))
      else if spec.requires_quantity_growth && not (is_quantity_driven candidate)
      then none
      else some score

  abbrev bonuses : PlaybookSpec Num → AnomalyCandidate Num → InvestigationContext Num → ℕ → Option ℕ
  bonuses spec candidate ctx score = some (
      bonus
        (is_nonempty spec.audit_event_patterns && is_nonempty (events_matching spec candidate ctx))
        2
        (bonus
          (any (λ (s : MetricSeries Num). matches_any lower (some s.metric_name) spec.metric_names)
            (series_for candidate ctx))
          1 score))

  -- `match_score`
  unfoldable pub playbook_score :
      PlaybookSpec Num → AnomalyCandidate Num → InvestigationContext Num → Option ℕ
  unfolding matches_any has_owner series_for low_utilization events_matching resource_with
      is_quantity_driven
  playbook_score spec candidate ctx =
      if spec.is_fallback
      then some 0
      else some 0
        then_step demand (is_nonempty spec.service_patterns) (service_matches spec candidate) 3
        then_step demand (is_nonempty spec.sku_patterns)
            (any (λ sku. matches_any lower (some sku) spec.sku_patterns) candidate.sku_ids) 3
        then_step demand (is_nonempty spec.resource_type_patterns) (type_matches spec candidate ctx)
            2
        then_step demand spec.requires_new_spend candidate.is_new 1
        then_step rate_or_growth spec candidate
        then_step demand spec.requires_missing_owner (not (has_owner candidate ctx)) 2
        then_step demand (is_nonempty spec.low_utilization_metrics)
            (low_utilization spec candidate ctx) 2
        then_step bonuses spec candidate ctx

  -- (score, -priority) > the best so far
  abbrev beats : ℕ → PlaybookSpec Num → Option (ℕ × PlaybookSpec Num) → Bool
  beats score spec none = true
  beats score spec (some (best, other)) =
      ltb best score || ((score == best) && ltb spec.priority other.priority)

  abbrev better :
      Option ℕ → PlaybookSpec Num → Option (ℕ × PlaybookSpec Num) → Option (ℕ × PlaybookSpec Num)
  better none spec best = best
  better (some score) spec best = if beats score spec best then some (score, spec) else best

  unfoldable pub best_playbook :
      AnomalyCandidate Num
      → InvestigationContext Num
      → List (PlaybookSpec Num)
      → Option (ℕ × PlaybookSpec Num)
      → Option (ℕ × PlaybookSpec Num)
  unfolding playbook_score
  best_playbook candidate ctx [] best = best
  best_playbook candidate ctx (spec ∷ rest) best =
      best_playbook candidate ctx rest (better (playbook_score spec candidate ctx) spec best)

  -- `select_playbook`
  unfoldable pub select_playbook :
      AnomalyCandidate Num → List (PlaybookSpec Num) → InvestigationContext Num → PlaybookSpec Num
  unfolding best_playbook
  select_playbook candidate specs ctx = elim (best_playbook candidate ctx specs none) [
    | none ↦ fallback_playbook
    | some best ↦ best.1
  ]
