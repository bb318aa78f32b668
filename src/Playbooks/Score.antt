-- ===== src/Playbooks/Score.antt =====
-- playbooks.py: the confidence of a finding, from the evidence that was gathered.
use cloudcause.Prelude.{
  ℕ, ◌-◌, ◌&&◌, String, Bool, none, some, List, [], ◌∷◌, any, select, length, string_eq, nat_eq,
  ◌==◌, if◌then◌else◌,
}
use cloudcause.Prelude.Floats.{FloatOps, dec, ◌⊕◌, ◌⊖◌, ◌⊗◌, ◌⊘◌, ◌≼◌, min_f, max_f, abs_f}
use cloudcause.Contracts.Analytics.{AnomalyCandidate}
use cloudcause.Contracts.Investigation.{EvidenceItem}
use cloudcause.Playbooks.Spec.{PlaybookSpec}

module _ {Num : Type 0} ⦃F : FloatOps Num⦄ where
  -- EVIDENCE_WEIGHTS
  abbrev pub evidence_weights : List (String × Num)
  evidence_weights =
      ("usage", dec 7 2)
      ∷ ("inventory", dec 5 2)
      ∷ ("metric", dec 12 2)
      ∷ ("audit", dec 18 2)
      ∷ ("recommendation", dec 5 2)
      ∷ []

  -- `_separation`
  unfoldable pub separation : AnomalyCandidate Num → Num
  separation candidate = elim candidate.percent_change [
    | none ↦ dec 1 0
    | some percent ↦ max_f (dec 0 0) (min_f (percent ⊘ dec 300 0) (dec 1 0))
  ]

  abbrev is_zero_rate : Num → Bool
  is_zero_rate a = (a ≼ dec 0 0) && (dec 0 0 ≼ a)

  abbrev coherence_of : Bool → Num → Num
  coherence_of requires_rate_change drift = if requires_rate_change then drift else dec 1 0 ⊖ drift

  abbrev between_rates : Bool → Num → Num → Num
  between_rates requires_rate_change baseline current =
      if is_zero_rate baseline
      then dec 5 1
      else coherence_of requires_rate_change
          (min_f (abs_f (current ⊖ baseline) ⊘ baseline ⊘ dec 25 2) (dec 1 0))

  -- `_rate_coherence`
  unfoldable pub rate_coherence : PlaybookSpec Num → AnomalyCandidate Num → Num
  rate_coherence spec candidate = elim candidate.unit_cost_baseline [
    | none ↦ dec 5 1
    | some baseline ↦ elim candidate.unit_cost_current [
      | none ↦ dec 5 1
      | some current ↦ between_rates spec.requires_rate_change baseline current
    ]
  ]

  abbrev count_of : String → List (EvidenceItem Num) → ℕ
  count_of kind evidence =
      length (select (λ (e : EvidenceItem Num). e.source_type == kind) evidence)

  -- the loop over the weights: the confidence, and the corroboration
  abbrev weigh : List (EvidenceItem Num) → List (String × Num) → Num × Num → Num × Num
  weigh evidence [] sums = sums
  weigh evidence ((kind, weight) ∷ rest) (confidence, corroboration) = weigh evidence rest (
      if count_of kind evidence == 0
      then (confidence, corroboration)
      else (confidence ⊕ weight, corroboration ⊕ dec 25 3 ⊗ dec (count_of kind evidence - 1) 0))

  abbrev less_if : Bool → Num → Num → Num
  less_if b amount confidence = if b then confidence ⊖ amount else confidence

  -- `_score_confidence`
  unfoldable pub score_confidence :
      PlaybookSpec Num → List (EvidenceItem Num) → AnomalyCandidate Num → Num
  unfolding separation rate_coherence
  score_confidence spec evidence candidate =
      let (weighed, corroboration) = weigh evidence evidence_weights (dec 16 2, dec 0 0) in
      let confidence =
        weighed
        ⊕ min_f corroboration (dec 75 3)
        ⊕ dec 1 1 ⊗ separation candidate
        ⊕ dec 6 2 ⊗ rate_coherence spec candidate in
      let confidence' =
        less_if (any (λ (e : EvidenceItem Num). e.source_type == "freshness") evidence) (dec 1 1)
          confidence in
      let confidence'' =
        less_if (any (λ (e : EvidenceItem Num). e.contains_untrusted_text) evidence) (dec 5 2)
          confidence' in
      max_f (dec 5 2) (min_f confidence'' spec.max_confidence)
