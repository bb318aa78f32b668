-- ===== src/Evidence/Validate/Counts.antt =====
-- validation.py: which findings are dropped and which are published.
use cloudcause.Prelude.{
  ◌≡◌, refl, ap, sym, ◌∙◌, ◌++◌, map, select, inl, inr, Bool, String, false, not, ◌||◌, List, [],
  ◌∷◌, Option, none, some, arith, any, Bool-cases,
}
use cloudcause.Prelude.Dict.{Dict}
use cloudcause.Prelude.Floats.{FloatOps}
use cloudcause.Contracts.Common.{Provider}
use cloudcause.Contracts.Analytics.{AnomalyCandidate, PeriodComparison}
use cloudcause.Contracts.Investigation.{EvidenceItem, Finding, RuleCitation, is_nonempty}
use cloudcause.Evidence.Checks.{
  Work, is_retroactive, check_evidence, check_resources, check_attribution, check_rule,
  check_each_rule, check_rules, check_corroboration, check_untrusted, check_duplicates, check_cause,
}
use cloudcause.Evidence.Validate.{
  Context, ValidationResult, sources_of, check_alone, check_sources, check_finding, validate_one,
  validate_from, validate_findings, empty_result,
}
use cloudcause.Evidence.Validate.Keeps.{
  check_duplicates-working, check_evidence-Keeps, check_resources-Keeps, check_attribution-Keeps,
  Keeps, Keeps-trans, check_rules-Keeps, check_corroboration-Keeps, check_untrusted-Keeps,
  check_sources-Keeps,
}

append_one-append :
    {A : Type 0} (xs : List A) (x : A) (ys : List A) → (xs ++ x ∷ []) ++ ys ≡ xs ++ x ∷ ys
append_one-append [] x ys = refl
append_one-append (z ∷ zs) x ys = cc (append_one-append zs x ys)

append_nil : {A : Type 0} (xs : List A) → xs ++ [] ≡ xs
append_nil [] = refl
append_nil (x ∷ xs) = cc (append_nil xs)

module _ {Num : Type 0} ⦃F : FloatOps Num⦄ where
  check_rule-drop :
      (r : RuleCitation) (w : Work Num) → (check_rule r w).drop ≡ (w.drop || is_retroactive r)
  unfolding check_rule
  check_rule-drop r w = ground arith

  check_each_rule-drop :
      (rs : List RuleCitation) (w : Work Num)
      → (check_each_rule rs w).drop ≡ (w.drop || any is_retroactive rs)
  unfolding check_each_rule
  check_each_rule-drop [] w = ground arith
  check_each_rule-drop (r ∷ rs) w =
      ground (arith, check_rule-drop r w, check_each_rule-drop rs (check_rule r w))

  check_rules-drop :
      (w : Work Num) → (check_rules w).drop ≡ (w.drop || any is_retroactive w.working.applied_rules)
  unfolding check_rules
  check_rules-drop w = ground (arith, check_each_rule-drop w.working.applied_rules w)

  check_evidence-drop :
      (f : Finding Num)
      → (check_evidence (record { working = f; issues = []; drop = false })).drop
        ≡ not (is_nonempty f.evidence)
  unfolding check_evidence
  check_evidence-drop f = ground arith

  check_resources-drop :
      (known : Dict Provider (List String)) (w : Work Num) → (check_resources known w).drop ≡ w.drop
  unfolding check_resources
  check_resources-drop known w = ground arith

  check_attribution-drop :
      (d : Dict String (AnomalyCandidate Num)) (w : Work Num)
      → (check_attribution d w).drop ≡ w.drop
  unfolding check_attribution
  check_attribution-drop d w = ground arith

  check_late-drop : (w : Work Num) → (check_untrusted (check_corroboration w)).drop ≡ w.drop
  unfolding check_untrusted check_corroboration
  check_late-drop w = ground arith

  check_sources-drop : (o : Option (List String)) (w : Work Num) → (check_sources o w).drop ≡ w.drop
  unfolding check_sources check_cause
  check_sources-drop none w = refl
  check_sources-drop (some available) w = ground arith

  check_alone-drop :
      (ctx : Context Num) (f : Finding Num)
      → (check_alone ctx f).drop
        ≡ (not (is_nonempty f.evidence) || any is_retroactive f.applied_rules)
  unfolding check_alone
  check_alone-drop ctx f =
      let w0 : Work Num = record { working = f; issues = []; drop = false } in
      let w2 : Work Num = check_evidence w0 in
      let w3 : Work Num = check_resources ctx.known w2 in
      let w4 : Work Num = check_attribution ctx.candidates w3 in
      cc (
        check_late-drop (check_rules w4),
        check_rules-drop w4,
        check_attribution-drop ctx.candidates w3,
        check_resources-drop ctx.known w2,
        check_evidence-drop f,
        (Keeps-trans (check_evidence-Keeps w0) (
            Keeps-trans (check_resources-Keeps ctx.known w2)
              (check_attribution-Keeps ctx.candidates w3))).rules,
      )

  -- A finding is dropped exactly when it carries no evidence or applies a rule to a day before the
  -- rule starts; no other defect drops it, and what was seen before does not matter.
  pub check_finding-drop :
      (ctx : Context Num) (seen : Dict String String) (f : Finding Num)
      → (check_finding ctx seen f).1.drop
        ≡ (not (is_nonempty f.evidence) || any is_retroactive f.applied_rules)
  unfolding check_finding
  check_finding-drop ctx seen f =
      let w : Work Num = check_alone ctx f in
      check_sources-drop _ (check_duplicates w.working.affected_resources (seen, w)).1
      ∙ (check_duplicates-working w.working.affected_resources (seen, w)).1
      ∙ check_alone-drop ctx f

  -- no evidence, or a rule that is applied to a day before it starts
  abbrev pub is_defective : Finding Num → Bool
  is_defective f = not (is_nonempty f.evidence) || any is_retroactive f.applied_rules

  -- what tells a finding from the others, and no check changes
  abbrev pub claim_of :
      Finding Num → String × Provider × List (EvidenceItem Num) × List RuleCitation × Option String
  claim_of f = (f.finding_id, f.provider, f.evidence, f.applied_rules, f.candidate_id)

  check_finding-claim :
      (ctx : Context Num) (seen : Dict String String) (f : Finding Num)
      → claim_of (check_finding ctx seen f).1.working ≡ claim_of f
  unfolding check_finding check_alone
  check_finding-claim ctx seen f =
      let w0 : Work Num = record { working = f; issues = []; drop = false } in
      let w2 : Work Num = check_evidence w0 in
      let w3 : Work Num = check_resources ctx.known w2 in
      let w4 : Work Num = check_attribution ctx.candidates w3 in
      let w5 : Work Num = check_rules w4 in
      let w6 : Work Num = check_corroboration w5 in
      let w7 : Work Num = check_untrusted w6 in
      let w8 : Work Num = (check_duplicates w7.working.affected_resources (seen, w7)).1 in
      let first : Keeps w0 w7 = Keeps-trans (check_evidence-Keeps w0) (
        Keeps-trans (check_resources-Keeps ctx.known w2) (
          Keeps-trans (check_attribution-Keeps ctx.candidates w3) (
            Keeps-trans (check_rules-Keeps w4)
              (Keeps-trans (check_corroboration-Keeps w5) (check_untrusted-Keeps w6))))) in
      Keeps-claim (check_sources-Keeps (sources_of ctx w8.working) w8)
      ∙ ap claim_of (check_duplicates-working w7.working.affected_resources (seen, w7)).0
      ∙ Keeps-claim first
    where
      Keeps-claim : {v w : Work Num} → Keeps v w → claim_of w.working ≡ claim_of v.working
      Keeps-claim k = cc (k.finding, k.provider, k.evidence, k.rules, k.candidate)

  map-append_one :
      (xs : List (Finding Num)) (x : Finding Num)
      → map claim_of (xs ++ x ∷ []) ≡ map claim_of xs ++ claim_of x ∷ []
  map-append_one [] x = refl
  map-append_one (y ∷ ys) x = cc (map-append_one ys x)

  -- the findings and the dropped ones, after more of them have been sorted in
  abbrev Sorted : List (Finding Num) → ValidationResult Num → ValidationResult Num → Type 0
  Sorted fs r r' =
      (map claim_of r'.findings
        ≡ map claim_of r.findings ++ map claim_of (select (λ f. not (is_defective f)) fs))
      × (map claim_of r'.dropped ≡ map claim_of r.dropped ++ map claim_of (select is_defective fs))

  validate_from-Sorted :
      (ctx : Context Num) (fs : List (Finding Num)) (r : ValidationResult Num)
      → Sorted fs r (validate_from ctx fs r)
  unfolding validate_from validate_one
  validate_from-Sorted ctx [] r = (sym (append_nil _), sym (append_nil _))
  validate_from-Sorted ctx (f ∷ fs) r =
      let w : Work Num = (check_finding ctx r.seen_resources f).1 in
      let claim = check_finding-claim ctx r.seen_resources f in
      let drop = check_finding-drop ctx r.seen_resources f in
      let (kept, dropped) = validate_from-Sorted ctx fs (validate_one ctx f r) in
      elim (Bool-cases (is_defective f)) [
        | inl bad ↦ (
          cc (kept, drop, bad),
          cc (
            dropped,
            drop,
            bad,
            claim,
            map-append_one r.dropped w.working,
            append_one-append (map claim_of r.dropped) (claim_of f)
                (map claim_of (select is_defective fs)),
          ),
        )
        | inr good ↦ (
          cc (
            kept,
            drop,
            good,
            claim,
            map-append_one r.findings w.working,
            append_one-append (map claim_of r.findings) (claim_of f)
                (map claim_of (select (λ g. not (is_defective g)) fs)),
          ),
          cc (dropped, drop, good),
        )
      ]

  -- Every finding is published or dropped, in its order: the published ones are those that carry
  -- evidence and apply no rule to a day before the rule starts, each once, and the dropped ones are the
  -- others, each once. Their id, provider, evidence, rules and candidate are the ones that were handed
  -- in.
  pub validate_findings-Partition :
      (fs : List (Finding Num)) (known : Dict Provider (List String))
      (comparison : Option (PeriodComparison Num))
      (available : Option (Dict Provider (List String)))
      → (map claim_of (validate_findings fs known comparison available).findings
          ≡ map claim_of (select (λ f. not (is_defective f)) fs))
        × (map claim_of (validate_findings fs known comparison available).dropped
            ≡ map claim_of (select is_defective fs))
  unfolding validate_findings
  validate_findings-Partition fs known comparison available =
      validate_from-Sorted _ fs (empty_result Num)
