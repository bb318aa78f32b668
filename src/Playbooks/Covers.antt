-- ===== src/Playbooks/Covers.antt =====
-- playbooks.py: what the deterministic findings say, and of which candidates.
use cloudcause.Prelude.{
  ℕ, zero, suc, ◌+◌, ◌-◌, ◌<◌, ◌≡◌, refl, subst, inl, inr, Bool-cases, arith, String, Bool, true,
  false, not, ◌||◌, Option, none, some, List, [], ◌∷◌, take, select, max, leb, All, if◌then◌else◌,
}
use cloudcause.Prelude.Floats.{FloatOps, round}
use cloudcause.Contracts.Analytics.{AnomalyCandidate}
use cloudcause.Contracts.Investigation.{is_nonempty, EvidenceItem, Finding, RuleCitation}
use cloudcause.Contracts.Knowledge.{
  RuleType, RuleProvider, of_provider, BillingRule, RuleQueryResult,
}
use cloudcause.Evidence.Checks.{is_retroactive}
use cloudcause.Knowledge.Effective.{Answers, select_rule-Answers}
use cloudcause.Playbooks.Spec.{PlaybookSpec, InvestigationContext, rule_date}
use cloudcause.Playbooks.Match.{select_playbook}
use cloudcause.Playbooks.Build.{
  Overrides, no_overrides, cited, resource_ids_of, rule_for, build_finding, is_wanted, limit_of,
  run_from, run_playbooks,
}

-- the two lists have the same length, and their items are related one by one
abbrev pub Pairwise : {A B : Type 0} → (A → B → Type 0) → List A → List B → Type 0
Pairwise R [] [] = Unit
Pairwise R (a ∷ rest) (b ∷ others) = R a b × Pairwise R rest others
Pairwise R _ _ = ⊥

module _ {Num : Type 0} ⦃F : FloatOps Num⦄ (lower : String → String)
    (ctx : InvestigationContext Num) where
  -- what a finding may say of its candidate
  abbrev pub Explains : Finding Num → AnomalyCandidate Num → Type 0
  Explains f c =
      (f.candidate_id ≡ some c.candidate_id)
      × (f.provider ≡ ctx.provider)
      × (f.actual_cost_increase ≡ round 2 c.absolute_change)
      × (f.affected_resources ≡ resource_ids_of c.resource_id)
      × (f.requires_human_approval ≡ true)
      × All
          (λ (rule : RuleCitation).
            (rule.selected_for_date ≡ some (rule_date ctx c)) × (is_retroactive rule ≡ false))
          f.applied_rules
      × ((is_nonempty f.applied_rules || f.is_uncertain) ≡ true)

-- the rules that are cited for a day
abbrev AreDated : ℕ → List RuleCitation → Type 0
AreDated day rules =
    All
      (λ (rule : RuleCitation). (rule.selected_for_date ≡ some day) × (is_retroactive rule ≡ false))
      rules

cited-AreDated :
    (lower : String → String) (provider : RuleProvider) (rule_type : RuleType) (day : ℕ)
    (result : RuleQueryResult)
    → Answers lower provider rule_type (some day) result
    → AreDated day (cited result.citation)
cited-AreDated lower provider rule_type day result h =
    by_cases result.rule result.citation result.found h
  where
    by_cases :
        (rule : Option BillingRule) (citation : Option RuleCitation) (found : Bool)
        → Answers lower provider rule_type
            (some day)
            (record result { rule = rule; citation = citation; found = found })
        → AreDated day (cited citation)
    by_cases none none found h = tt
    by_cases none (some c) found h = ground (arith, h.1)
    by_cases (some rule) none found h = elim h.3 [ ]
    by_cases (some rule) (some c) found h = ((h.3.1, h.3.2), tt)

doubted-found :
    (lower : String → String) (provider : RuleProvider) (rule_type : RuleType) (day : Option ℕ)
    (result : RuleQueryResult)
    → Answers lower provider rule_type day result
    → (is_nonempty (cited result.citation) || not result.found) ≡ true
doubted-found lower provider rule_type day result h =
    by_cases result.rule result.citation result.found h
  where
    by_cases :
        (rule : Option BillingRule) (citation : Option RuleCitation) (found : Bool)
        → Answers lower provider rule_type day
            (record result { rule = rule; citation = citation; found = found })
        → (is_nonempty (cited citation) || not found) ≡ true
    by_cases none citation found h = ground (arith, h.0)
    by_cases (some rule) none found h = elim h.3 [ ]
    by_cases (some rule) (some c) found h = refl

module _ {Num : Type 0} ⦃F : FloatOps Num⦄ (lower : String → String)
    (ctx : InvestigationContext Num) where
  rule_for-Answers :
      (c : AnomalyCandidate Num) (spec : PlaybookSpec Num)
      → Answers lower
          (of_provider ctx.provider)
          spec.rule_type
          (some (rule_date ctx c))
          (rule_for lower c spec ctx)
  rule_for-Answers c spec =
      select_rule-Answers lower ctx.knowledge (of_provider ctx.provider) spec.rule_type
        c.service_name (some spec.category) (some (rule_date ctx c)) ctx.today

  build_finding-Explains :
      (c : AnomalyCandidate Num) (spec : PlaybookSpec Num) (index : ℕ)
      (evidence : List (EvidenceItem Num)) (overrides : Overrides Num)
      → Explains lower ctx (build_finding lower c spec ctx index evidence overrides) c
  unfolding build_finding
  build_finding-Explains c spec index evidence overrides = (
    refl,
    refl,
    refl,
    refl,
    refl,
    cited-AreDated lower (of_provider ctx.provider) spec.rule_type (rule_date ctx c)
        (rule_for lower c spec ctx) (rule_for-Answers c spec),
    doubted _ _ (is_nonempty (cited (rule_for lower c spec ctx).citation))
        (rule_for lower c spec ctx).found _
        (doubted-found lower (of_provider ctx.provider) spec.rule_type (some (rule_date ctx c))
          (rule_for lower c spec ctx) (rule_for-Answers c spec)),
  )
    where
      doubted :
          (x : Num) (y : Num × Bool) (cites found incomplete : Bool)
          → (cites || not found) ≡ true
          → (cites || ((if not found then (x, true) else y).1 || incomplete)) ≡ true
      doubted x y true found incomplete h = refl
      doubted x y false true incomplete h = ground (arith, h)
      doubted x y false false incomplete h = refl

  take_nil : (n : ℕ) → take {A = AnomalyCandidate Num} n [] ≡ []
  take_nil zero = refl
  take_nil (suc n) = refl

  module _ (gather : AnomalyCandidate Num → PlaybookSpec Num → List (EvidenceItem Num))
      (specs : List (PlaybookSpec Num)) where
    -- what is left of the candidates that the loop may still take
    abbrev left_for : ℕ → ℕ → List (AnomalyCandidate Num) → List (AnomalyCandidate Num)
    left_for limit count cs =
        take (max limit 1 - count) (select (is_wanted lower ctx.task.candidate_ids) cs)

    limited-Pairwise :
        (limit count : ℕ) (fs : List (Finding Num)) (cs : List (AnomalyCandidate Num))
        → (count + 1 < max limit 1
            → Pairwise (Explains lower ctx) fs (take (max limit 1 - (count + 1)) cs))
        → Pairwise
            (Explains lower ctx)
            (if leb limit (count + 1) then [] else fs)
            (take (max limit 1 - (count + 1)) cs)
    limited-Pairwise limit count fs cs h = elim (Bool-cases (leb limit (count + 1))) [
      | inl full ↦ rw full (rw (no_room full) tt)
      | inr more ↦ rw more (h (room_left more))
    ]
      where
        no_room : leb limit (count + 1) ≡ true → max limit 1 - (count + 1) ≡ 0
        no_room full = ground (arith, full)

        room_left : leb limit (count + 1) ≡ false → count + 1 < max limit 1
        room_left more = ground (arith, more)

    run_from-Pairwise :
        (limit count : ℕ) (cs : List (AnomalyCandidate Num))
        → count < max limit 1
        → Pairwise
            (Explains lower ctx)
            (run_from lower gather specs ctx limit count cs)
            (left_for limit count cs)
    unfolding run_from
    run_from-Pairwise limit count [] h = rw (take_nil (max limit 1 - count)) tt
    run_from-Pairwise limit count (c ∷ rest) h =
        elim (Bool-cases (is_wanted lower ctx.task.candidate_ids c)) [
          | inl wanted ↦ rw wanted (
              rw room (
                build_finding-Explains c (select_playbook lower c specs ctx) (count + 1)
                    (gather c (select_playbook lower c specs ctx)) no_overrides,
                limited-Pairwise limit count
                    (run_from lower gather specs ctx limit (count + 1) rest)
                    (select (is_wanted lower ctx.task.candidate_ids) rest)
                    (run_from-Pairwise limit (count + 1) rest),
              ))
          | inr unwanted ↦ rw unwanted (run_from-Pairwise limit count rest h)
        ]
      where
        room : max limit 1 - count ≡ suc (max limit 1 - (count + 1))
        room = omega (arith, h)

    -- The deterministic findings are those of the wanted candidates, one for each, in the order of the
    -- candidates and up to the limit, but of one candidate at least. Each names its candidate and the
    -- resource of this candidate only, claims the increase that was measured for it to the cent, asks for
    -- approval, and cites only rules that were selected for the day of the spike and are not retroactive;
    -- a finding that cites no rule is uncertain.
    pub run_playbooks-Explains :
        (max_findings : Option ℕ)
        → Pairwise (Explains lower ctx) (run_playbooks lower gather specs ctx max_findings) (
            take
              (max (limit_of lower max_findings ctx) 1)
              (select (is_wanted lower ctx.task.candidate_ids) ctx.candidates))
    unfolding run_playbooks
    run_playbooks-Explains max_findings =
        subst
          (λ n.
            Pairwise (Explains lower ctx)
              (run_from lower gather specs ctx (limit_of lower max_findings ctx) 0 ctx.candidates)
              (take n (select (is_wanted lower ctx.task.candidate_ids) ctx.candidates)))
          (from_zero (max (limit_of lower max_findings ctx) 1))
          (run_from-Pairwise (limit_of lower max_findings ctx) 0 ctx.candidates (omega arith))
      where
        from_zero : (n : ℕ) → n - 0 ≡ n
        from_zero n = omega arith
