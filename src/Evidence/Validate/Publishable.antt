-- ===== src/Evidence/Validate/Publishable.antt =====
-- validation.py: what `validate_findings` promises of every finding that it publishes.
use mathlib.Core.Bool.{false≢true}
use mathlib.Core.Path.{subst₂}
use cloudcause.Prelude.{
  String, true, false, ◌≡◌, subst, ap, sym, ◌∙◌, inl, inr, List, [], Option, none, some, any,
  Bool-cases,
}
use cloudcause.Prelude.Dict.{get}
use cloudcause.Prelude.Floats.{FloatOps, FloatLaws, dec, ◌≼◌}
use cloudcause.Contracts.Common.{provider_eq}
use cloudcause.Contracts.Investigation.{Finding, is_nonempty}
use cloudcause.Evidence.Checks.{
  Work, is_retroactive, is_corroborated, missing_cause_sources, check_evidence, check_resources,
  check_attribution, check_rules, check_corroboration, check_untrusted,
}
use cloudcause.Evidence.Validate.{Context, sources_of, check_sources}
use cloudcause.Evidence.Validate.Keeps.{
  Keeps, Keeps-trans, check_evidence-Keeps, check_resources-Keeps, check_attribution-Keeps,
  check_rules-Keeps, check_corroboration-Keeps, check_untrusted-Keeps, check_sources-Keeps,
  check_untrusted-working, Keeps-drop,
}
use cloudcause.Evidence.Validate.Claims.{
  SameClaim, SameClaim-trans, check_evidence-nonempty, check_rules-retroactive,
  check_resources-ResourcesKnown, check_attribution-resources, check_attribution-Attributed,
  ResourcesKnown, Attributed, check_rules-SameClaim, check_corroboration-SameClaim,
  check_untrusted-SameClaim, check_sources-SameClaim,
}
use cloudcause.Evidence.Validate.Corroboration.{
  Corroborated, Unexplained, check_corroboration-Corroborated, check_sources-Corroborated,
  check_cause-Unexplained,
}

module _ {Num : Type 0} ⦃F : FloatOps Num⦄ where
  pub record IsPublishable (ctx : Context Num) (f : Finding Num) : Type 0 where
    pub evidence : is_nonempty f.evidence ≡ true
    pub rules : any is_retroactive f.applied_rules ≡ false
    pub resources : ResourcesKnown ctx.known f.provider f.affected_resources
    pub increase : Attributed ctx.candidates f.candidate_id f.actual_cost_increase
    pub corroborated : (dec 8 1 ≼ f.confidence) ≡ true → is_corroborated f ≡ true
    pub cause :
        (available : List String)
        → sources_of ctx f ≡ some available
        → is_nonempty (missing_cause_sources available) ≡ true
        → Unexplained f

  module _ (ctx : Context Num) (finding : Finding Num) where
    -- the copy after each check
    abbrev w0 : Work Num
    w0 = record { working = finding; issues = []; drop = false }

    abbrev w2 : Work Num
    w2 = check_evidence w0

    abbrev w3 : Work Num
    w3 = check_resources ctx.known w2

    abbrev w4 : Work Num
    w4 = check_attribution ctx.candidates w3

    abbrev w5 : Work Num
    w5 = check_rules w4

    abbrev w6 : Work Num
    w6 = check_corroboration w5

    abbrev w7 : Work Num
    w7 = check_untrusted w6

    Keeps-4_7 : Keeps w4 w7
    Keeps-4_7 =
        Keeps-trans (check_rules-Keeps w4)
          (Keeps-trans (check_corroboration-Keeps w5) (check_untrusted-Keeps w6))

    Keeps-5_7 : Keeps w5 w7
    Keeps-5_7 = Keeps-trans (check_corroboration-Keeps w5) (check_untrusted-Keeps w6)

    Keeps-3_7 : Keeps w3 w7
    Keeps-3_7 = Keeps-trans (check_attribution-Keeps ctx.candidates w3) Keeps-4_7

    Keeps-2_7 : Keeps w2 w7
    Keeps-2_7 = Keeps-trans (check_resources-Keeps ctx.known w2) Keeps-3_7

    claim_4_7 : SameClaim w4 w7
    claim_4_7 =
        SameClaim-trans (check_rules-SameClaim w4)
          (SameClaim-trans (check_corroboration-SameClaim w5) (check_untrusted-SameClaim w6))

    Corroborated-6 : (L : FloatLaws Num) → Corroborated w7.working
    Corroborated-6 L =
        subst (λ f. Corroborated f) (sym (check_untrusted-working w6))
          (check_corroboration-Corroborated L w5)

    -- `wd` is the copy after check 8, which touches only the issues; `wf` the one after check 9
    module _ (L : FloatLaws Num) (wd : Work Num) (o : Option (List String))
        (same : wd.working ≡ w7.working) (drop : wd.drop ≡ w7.drop)
        (sources : o ≡ sources_of ctx wd.working) (kept : (check_sources o wd).drop ≡ false) where
      abbrev wf : Work Num
      wf = check_sources o wd

      last : Keeps wd wf
      last = check_sources-Keeps o wd

      drop_7 : w7.drop ≡ false
      drop_7 = sym drop ∙ Keeps-drop last kept

      evidence_7 : wf.working.evidence ≡ finding.evidence
      evidence_7 =
          last.evidence
          ∙ ap (λ (f : Finding Num). f.evidence) same
          ∙ Keeps-2_7.evidence
          ∙ (check_evidence-Keeps w0).evidence

      rules_4 : any is_retroactive w4.working.applied_rules ≡ false
      rules_4 = elim (Bool-cases (any is_retroactive w4.working.applied_rules)) [
        | inl bad ↦
            absurd (false≢true (sym (Keeps-drop Keeps-5_7 drop_7) ∙ check_rules-retroactive w4 bad))
        | inr fine ↦ fine
      ]

      claim_last : SameClaim w4 wf
      claim_last = SameClaim-trans claim_4_7 (
          SameClaim-trans
            (record {
              resources = ap (λ (f : Finding Num). f.affected_resources) same;
              increase = ap (λ (f : Finding Num). f.actual_cost_increase) same;
            })
            (check_sources-SameClaim o wd))

      resources_4 : ResourcesKnown ctx.known wf.working.provider wf.working.affected_resources
      resources_4 =
          subst₂ (λ p rs. ResourcesKnown ctx.known p rs)
            (sym (last.provider ∙ ap (λ (f : Finding Num). f.provider) same ∙ Keeps-2_7.provider))
            (sym (claim_last.resources ∙ check_attribution-resources ctx.candidates w3))
            (check_resources-ResourcesKnown ctx.known w2)

      increase_4 : Attributed ctx.candidates wf.working.candidate_id wf.working.actual_cost_increase
      increase_4 =
          subst₂ (λ c x. Attributed ctx.candidates c x)
            (sym (
              last.candidate ∙ ap (λ (f : Finding Num). f.candidate_id) same ∙ Keeps-3_7.candidate))
            (sym claim_last.increase) (check_attribution-Attributed ctx.candidates w3)

      cause_9 :
          (available : List String)
          → sources_of ctx wf.working ≡ some available
          → is_nonempty (missing_cause_sources available) ≡ true
          → Unexplained wf.working
      cause_9 available e n =
          let eo : o ≡ some available =
            sources
            ∙ ap (λ p. elim ctx.available [ none ↦ none | some d ↦ get p d ]) (sym last.provider)
            ∙ e in
          subst (λ x. Unexplained (check_sources x wd).working) (sym eo)
            (unfold check_sources in check_cause-Unexplained L available wd n)

      pub published : IsPublishable ctx wf.working
      published = record {
        evidence =
            ap is_nonempty evidence_7 ∙ check_evidence-nonempty w0 (Keeps-drop Keeps-2_7 drop_7);
        rules =
            ap (λ rs. any is_retroactive rs)
              (last.rules ∙ ap (λ (f : Finding Num). f.applied_rules) same ∙ Keeps-4_7.rules)
            ∙ rules_4;
        resources = resources_4;
        increase = increase_4;
        corroborated =
            check_sources-Corroborated L o wd
              (subst (λ f. Corroborated f) (sym same) (Corroborated-6 L));
        cause = cause_9;
      }
