-- ===== src/Evidence/Validate/Keeps.antt =====
-- validation.py: what each check leaves alone. Evidence, provider, rules and the candidate are never
-- changed; a finding that is to be dropped stays so, and an uncertain one stays uncertain.
use mathlib.Core.Bool.{false≢true}
use cloudcause.Prelude.{
  String, true, false, ◌≡◌, refl, sym, ◌∙◌, inl, inr, Bool-cases, List, [], ◌∷◌, Option, none, some,
  arith,
}
use cloudcause.Prelude.Dict.{Dict}
use cloudcause.Prelude.Floats.{FloatOps}
use cloudcause.Contracts.Common.{Provider}
use cloudcause.Contracts.Analytics.{AnomalyCandidate}
use cloudcause.Contracts.Investigation.{RuleCitation}
use cloudcause.Evidence.Checks.{
  Work, check_evidence, check_resources, check_attribution, check_rule, check_each_rule,
  check_rules, check_corroboration, check_untrusted, check_duplicate, check_duplicates, check_cause,
}
use cloudcause.Evidence.Validate.{check_sources}

module _ {Num : Type 0} where
  -- from `v` to `w` these fields are the same, and these marks were not taken back
  pub record Keeps (v w : Work Num) : Type 0 where
    pub evidence : w.working.evidence ≡ v.working.evidence
    pub provider : w.working.provider ≡ v.working.provider
    pub rules : w.working.applied_rules ≡ v.working.applied_rules
    pub candidate : w.working.candidate_id ≡ v.working.candidate_id
    pub finding : w.working.finding_id ≡ v.working.finding_id
    pub drop : v.drop ≡ true → w.drop ≡ true
    pub uncertain : v.working.is_uncertain ≡ true → w.working.is_uncertain ≡ true

  pub Keeps-refl : (w : Work Num) → Keeps w w
  Keeps-refl w = record {
    evidence = refl;
    provider = refl;
    rules = refl;
    candidate = refl;
    finding = refl;
    drop = λ h. h;
    uncertain = λ h. h;
  }

  pub Keeps-trans : {u v w : Work Num} → Keeps u v → Keeps v w → Keeps u w
  Keeps-trans a b = record {
    evidence = b.evidence ∙ a.evidence;
    provider = b.provider ∙ a.provider;
    rules = b.rules ∙ a.rules;
    candidate = b.candidate ∙ a.candidate;
    finding = b.finding ∙ a.finding;
    drop = λ h. b.drop (a.drop h);
    uncertain = λ h. b.uncertain (a.uncertain h);
  }

  pub check_evidence-Keeps : (w : Work Num) → Keeps w (check_evidence w)
  unfolding check_evidence
  check_evidence-Keeps w = ground arith

  pub check_untrusted-Keeps : (w : Work Num) → Keeps w (check_untrusted w)
  unfolding check_untrusted
  check_untrusted-Keeps w = ground arith

  pub check_untrusted-working : (w : Work Num) → (check_untrusted w).working ≡ w.working
  unfolding check_untrusted
  check_untrusted-working w = ground arith

  -- what was kept and is not to be dropped was not to be dropped before
  pub Keeps-drop : {v w : Work Num} → Keeps v w → w.drop ≡ false → v.drop ≡ false
  Keeps-drop {v} k h = elim (Bool-cases v.drop) [
    | inl dropped ↦ absurd (false≢true (sym h ∙ k.drop dropped))
    | inr kept ↦ kept
  ]

  check_duplicate-working :
      (r : String) (acc : Dict String String × Work Num)
      → ((check_duplicate r acc).1.working ≡ acc.1.working)
        × ((check_duplicate r acc).1.drop ≡ acc.1.drop)
  unfolding check_duplicate
  check_duplicate-working r (seen, w) = ground arith

  -- check 8 changes only the issues
  pub check_duplicates-working :
      (rs : List String) (acc : Dict String String × Work Num)
      → ((check_duplicates rs acc).1.working ≡ acc.1.working)
        × ((check_duplicates rs acc).1.drop ≡ acc.1.drop)
  unfolding check_duplicates
  check_duplicates-working [] acc = (refl, refl)
  check_duplicates-working (r ∷ rest) acc =
      let (p, q) = check_duplicates-working rest (check_duplicate r acc) in
      let (p', q') = check_duplicate-working r acc in (p ∙ p', q ∙ q')

module _ {Num : Type 0} ⦃F : FloatOps Num⦄ where
  pub check_resources-Keeps :
      (known : Dict Provider (List String)) (w : Work Num) → Keeps w (check_resources known w)
  unfolding check_resources
  check_resources-Keeps known w = ground arith

  pub check_attribution-Keeps :
      (d : Dict String (AnomalyCandidate Num)) (w : Work Num) → Keeps w (check_attribution d w)
  unfolding check_attribution
  check_attribution-Keeps d w = ground arith

  pub check_rule-Keeps : (r : RuleCitation) (w : Work Num) → Keeps w (check_rule r w)
  unfolding check_rule
  check_rule-Keeps r w = ground arith

  pub check_each_rule-Keeps :
      (rs : List RuleCitation) (w : Work Num) → Keeps w (check_each_rule rs w)
  unfolding check_each_rule
  check_each_rule-Keeps [] w = Keeps-refl w
  check_each_rule-Keeps (r ∷ rs) w =
      Keeps-trans (check_rule-Keeps r w) (check_each_rule-Keeps rs (check_rule r w))

  pub check_rules-Keeps : (w : Work Num) → Keeps w (check_rules w)
  unfolding check_rules
  check_rules-Keeps w = ground (arith, check_each_rule-Keeps w.working.applied_rules w)

  pub check_corroboration-Keeps : (w : Work Num) → Keeps w (check_corroboration w)
  unfolding check_corroboration
  check_corroboration-Keeps w = ground arith

  pub check_cause-Keeps :
      (available : List String) (w : Work Num) → Keeps w (check_cause available w)
  unfolding check_cause
  check_cause-Keeps available w = ground arith

  pub check_sources-Keeps : (o : Option (List String)) (w : Work Num) → Keeps w (check_sources o w)
  unfolding check_sources
  check_sources-Keeps none w = Keeps-refl w
  check_sources-Keeps (some available) w = check_cause-Keeps available w
