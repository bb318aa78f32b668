-- ===== src/Evidence/Validate/Claims.antt =====
-- validation.py: what checks 1, 3, 4 and 5 establish, and that the later checks leave it.
use cloudcause.Prelude.{
  String, Bool, true, false, not, ◌≡◌, refl, ◌∙◌, ◌⊎◌, inl, inr, List, [], ◌∷◌, Option, none, some,
  arith, any, all, select, Bool-cases, string_eq,
}
use cloudcause.Prelude.Dict.{Dict, get}
use cloudcause.Prelude.Floats.{FloatOps, round}
use cloudcause.Contracts.Common.{Provider, provider_eq}
use cloudcause.Contracts.Analytics.{AnomalyCandidate}
use cloudcause.Contracts.Investigation.{RuleCitation, is_nonempty}
use cloudcause.Evidence.Checks.{
  Work, is_known, is_retroactive, drifts, check_evidence, check_resources, check_attribution,
  check_rule, check_each_rule, check_rules, check_corroboration, check_untrusted, check_cause,
}
use cloudcause.Evidence.Validate.{check_sources}
use cloudcause.Evidence.Validate.Keeps.{check_each_rule-Keeps}

module _ {ℓ} {A : Type ℓ} (p : A → Bool) where
  all-select : (xs : List A) → all p (select p xs) ≡ true
  all-select [] = refl
  all-select (x ∷ xs) = ground (arith, all-select xs)

  all-any-not : (xs : List A) → any (λ x. not (p x)) xs ≡ false → all p xs ≡ true
  all-any-not [] h = refl
  all-any-not (x ∷ xs) h = ground (arith, all-any-not xs)

-- Every resource is in the provider's data or carries the provider's own prefix.
abbrev pub ResourcesKnown : Dict Provider (List String) → Provider → List String → Type 0
ResourcesKnown known p resources =
    (allowed : List String)
    → get p known ≡ some allowed
    → is_nonempty allowed ≡ true
    → all (is_known p allowed) resources ≡ true

module _ {Num : Type 0} where
  -- the claim about resources and money, which the checks after 4 leave alone
  pub record SameClaim (v w : Work Num) : Type 0 where
    pub resources : w.working.affected_resources ≡ v.working.affected_resources
    pub increase : w.working.actual_cost_increase ≡ v.working.actual_cost_increase

  pub SameClaim-refl : (w : Work Num) → SameClaim w w
  SameClaim-refl w = record { resources = refl; increase = refl }

  pub SameClaim-trans : {u v w : Work Num} → SameClaim u v → SameClaim v w → SameClaim u w
  SameClaim-trans a b = record {
    resources = b.resources ∙ a.resources;
    increase = b.increase ∙ a.increase;
  }

  pub check_untrusted-SameClaim : (w : Work Num) → SameClaim w (check_untrusted w)
  unfolding check_untrusted
  check_untrusted-SameClaim w = ground arith

  pub check_evidence-nonempty :
      (w : Work Num) → (check_evidence w).drop ≡ false → is_nonempty w.working.evidence ≡ true
  unfolding check_evidence
  check_evidence-nonempty w h = ground arith

module _ {Num : Type 0} ⦃F : FloatOps Num⦄ where
  check_rule-SameClaim : (r : RuleCitation) (w : Work Num) → SameClaim w (check_rule r w)
  unfolding check_rule
  check_rule-SameClaim r w = ground arith

  check_each_rule-SameClaim :
      (rs : List RuleCitation) (w : Work Num) → SameClaim w (check_each_rule rs w)
  unfolding check_each_rule
  check_each_rule-SameClaim [] w = SameClaim-refl w
  check_each_rule-SameClaim (r ∷ rs) w =
      SameClaim-trans (check_rule-SameClaim r w) (check_each_rule-SameClaim rs (check_rule r w))

  pub check_rules-SameClaim : (w : Work Num) → SameClaim w (check_rules w)
  unfolding check_rules
  check_rules-SameClaim w = ground (arith, check_each_rule-SameClaim w.working.applied_rules w)

  pub check_corroboration-SameClaim : (w : Work Num) → SameClaim w (check_corroboration w)
  unfolding check_corroboration
  check_corroboration-SameClaim w = ground arith

  check_cause-SameClaim :
      (available : List String) (w : Work Num) → SameClaim w (check_cause available w)
  unfolding check_cause
  check_cause-SameClaim available w = ground arith

  pub check_sources-SameClaim :
      (o : Option (List String)) (w : Work Num) → SameClaim w (check_sources o w)
  unfolding check_sources
  check_sources-SameClaim none w = SameClaim-refl w
  check_sources-SameClaim (some available) w = check_cause-SameClaim available w

  pub check_resources-ResourcesKnown :
      (known : Dict Provider (List String)) (w : Work Num)
      → ResourcesKnown known w.working.provider (check_resources known w).working.affected_resources
  unfolding check_resources
  check_resources-ResourcesKnown known w allowed e n =
      rw (e, check_resources)
        (ground (
          arith,
          all-select (is_known w.working.provider allowed) w.working.affected_resources,
          all-any-not (is_known w.working.provider allowed) w.working.affected_resources,
        ))

  pub check_attribution-resources :
      (d : Dict String (AnomalyCandidate Num)) (w : Work Num)
      → (check_attribution d w).working.affected_resources ≡ w.working.affected_resources
  unfolding check_attribution
  check_attribution-resources d w = ground arith

  -- The claimed increase is the measured one, up to the tolerance or exactly to the cent.
  abbrev pub Attributed : Dict String (AnomalyCandidate Num) → Option String → Num → Type 0
  Attributed candidates id claimed =
      (c : AnomalyCandidate Num)
      → get (elim id [ none ↦ "" | some i ↦ i ]) candidates ≡ some c
      → (drifts claimed c.absolute_change ≡ false) ⊎ (claimed ≡ round 2 c.absolute_change)

  pub check_attribution-Attributed :
      (d : Dict String (AnomalyCandidate Num)) (w : Work Num)
      → Attributed d w.working.candidate_id (check_attribution d w).working.actual_cost_increase
  unfolding check_attribution
  check_attribution-Attributed d w c e =
      elim (Bool-cases (drifts w.working.actual_cost_increase c.absolute_change)) [
        | inl far ↦ inr (rw (e, check_attribution) (rw far))
        | inr near ↦ inl (rw (e, check_attribution) (rw near near))
      ]

  check_rule-retroactive :
      (r : RuleCitation) (w : Work Num) → is_retroactive r ≡ true → (check_rule r w).drop ≡ true
  unfolding check_rule
  check_rule-retroactive r w h = ground arith

  check_each_rule-retroactive :
      (rs : List RuleCitation) (w : Work Num)
      → any is_retroactive rs ≡ true
      → (check_each_rule rs w).drop ≡ true
  unfolding check_each_rule
  check_each_rule-retroactive [] w h = cc
  check_each_rule-retroactive (r ∷ rs) w h = elim (Bool-cases (is_retroactive r)) [
    | inl bad ↦ (check_each_rule-Keeps rs (check_rule r w)).drop (check_rule-retroactive r w bad)
    | inr fine ↦ check_each_rule-retroactive rs (check_rule r w) (ground arith)
  ]

  -- a rule that starts after the date it was selected for drops the finding
  pub check_rules-retroactive :
      (w : Work Num)
      → any is_retroactive w.working.applied_rules ≡ true
      → (check_rules w).drop ≡ true
  unfolding check_rules
  check_rules-retroactive w h =
      ground (arith, check_each_rule-retroactive w.working.applied_rules w)
