-- ===== src/Evidence/Validate/Published.antt =====
-- validation.py: the promises of `validate_findings` over all findings of a run.
use cloudcause.Prelude.{
  String, false, ◌≡◌, refl, inl, inr, List, [], ◌∷◌, Option, All, All-append, Bool-cases,
}
use cloudcause.Prelude.Dict.{Dict}
use cloudcause.Prelude.Floats.{FloatOps, FloatLaws}
use cloudcause.Contracts.Common.{Provider}
use cloudcause.Contracts.Analytics.{PeriodComparison}
use cloudcause.Contracts.Investigation.{Finding}
use cloudcause.Evidence.Checks.{Work, candidate_index, check_duplicates}
use cloudcause.Evidence.Validate.{
  Context, ValidationResult, check_alone, check_finding, validate_one, validate_from,
  validate_findings, empty_result,
}
use cloudcause.Evidence.Validate.Keeps.{check_duplicates-working}
use cloudcause.Evidence.Validate.Publishable.{IsPublishable, published}

module _ {Num : Type 0} ⦃F : FloatOps Num⦄ (L : FloatLaws Num) where
  check_finding-IsPublishable :
      (ctx : Context Num) (seen : Dict String String) (f : Finding Num)
      → (check_finding ctx seen f).1.drop ≡ false
      → IsPublishable ctx (check_finding ctx seen f).1.working
  unfolding check_finding check_alone
  check_finding-IsPublishable ctx seen f h =
      let w : Work Num = check_alone ctx f in
      let (same, drop) = check_duplicates-working w.working.affected_resources (seen, w) in
      published ctx f L (check_duplicates w.working.affected_resources (seen, w)).1 _ same drop refl
        h

  validate_one-IsPublishable :
      (ctx : Context Num) (f : Finding Num) (r : ValidationResult Num)
      → All (IsPublishable ctx) r.findings
      → All (IsPublishable ctx) (validate_one ctx f r).findings
  unfolding validate_one
  validate_one-IsPublishable ctx f r h =
      elim (Bool-cases (check_finding ctx r.seen_resources f).1.drop) [
        | inl dropped ↦ rw dropped h
        | inr kept ↦ rw kept (
            All-append (IsPublishable ctx) r.findings _ h
              (check_finding-IsPublishable ctx r.seen_resources f kept, tt))
      ]

  validate_from-IsPublishable :
      (ctx : Context Num) (fs : List (Finding Num)) (r : ValidationResult Num)
      → All (IsPublishable ctx) r.findings
      → All (IsPublishable ctx) (validate_from ctx fs r).findings
  unfolding validate_from
  validate_from-IsPublishable ctx [] r h = h
  validate_from-IsPublishable ctx (f ∷ fs) r h =
      validate_from-IsPublishable ctx fs (validate_one ctx f r)
        (validate_one-IsPublishable ctx f r h)

  -- Every published finding carries evidence and applies no rule before the rule's first day. Where
  -- the resources of its provider are known, it names only those or ones with the provider's prefix.
  -- Where its candidate is one of the comparison, it claims the increase measured for it, within the
  -- tolerance or exactly to the cent; a finding without such a candidate may claim any. It has a
  -- confidence of 0.8 or more only with three pieces of evidence, one of them a metric, an audit event
  -- or a recommendation. Where its provider supplied no source that can show a cause, it is an uncertain
  -- unexplained increase with a confidence of at most 0.4.
  pub validate_findings-IsPublishable :
      (fs : List (Finding Num)) (known : Dict Provider (List String))
      (comparison : Option (PeriodComparison Num))
      (available : Option (Dict Provider (List String)))
      → All
          (IsPublishable (record {
            known = known;
            candidates = candidate_index comparison;
            available = available;
          }))
          (validate_findings fs known comparison available).findings
  unfolding validate_findings
  validate_findings-IsPublishable fs known comparison available =
      validate_from-IsPublishable _ fs (empty_result Num) tt
