-- ===== src/Evidence/Validate.antt =====
-- packages/evidence/src/cloudcause_evidence/validation.py: `validate_findings`, the loop over the
-- findings, and the counts of its result.
pub mod Keeps
pub mod Claims
pub mod Corroboration
pub mod Publishable
pub mod Published
pub mod Counts
use cloudcause.Prelude.{
  ℕ, String, Bool, true, false, ◌&&◌, Option, none, some, List, [], ◌∷◌, ◌++◌, select, length,
  if◌then◌else◌,
}
use cloudcause.Prelude.Dict.{Dict, get, put}
use cloudcause.Prelude.Floats.{FloatOps}
use cloudcause.Contracts.Common.{Provider, provider_eq}
use cloudcause.Contracts.Analytics.{AnomalyCandidate, PeriodComparison}
use cloudcause.Contracts.Investigation.{
  Finding, ValidationIssue, Severity, info, warning, error, is_nonempty,
}
use cloudcause.Evidence.Checks.{
  Work, candidate_index, check_evidence, check_resources, check_attribution, check_rules,
  check_corroboration, check_untrusted, check_duplicates, check_cause, missing_cause_sources,
}

-- the entry that check 9 makes in `missing_source_types`
unfoldable pub note_missing :
    Provider → Option (List String) → Dict Provider (List String) → Dict Provider (List String)
note_missing provider none d = d
note_missing provider (some available) d =
    if is_nonempty (missing_cause_sources available)
    then put provider (missing_cause_sources available) d
    else d

abbrev is_error : ValidationIssue → Bool
is_error i = elim i.severity [ error ↦ true | _ ↦ false ]

module _ (Num : Type 0) where
  -- The keyword arguments; an absent mapping of known ids is empty, as the code makes it.
  pub record Context : Type 0 where
    pub known : Dict Provider (List String)
    pub candidates : Dict String (AnomalyCandidate Num)
    pub available : Option (Dict Provider (List String))

  -- `ValidationResult`, and `seen_resources`, which the loop carries
  pub record ValidationResult : Type 0 where
    pub findings : List (Finding Num)
    pub dropped : List (Finding Num)
    pub issues : List ValidationIssue
    pub missing_source_types : Dict Provider (List String)
    pub seen_resources : Dict String String

module _ {Num : Type 0} where
  -- the source types of the finding's provider, where the caller gave them
  abbrev pub sources_of : Context Num → Finding Num → Option (List String)
  sources_of ctx f = elim ctx.available [ none ↦ none | some d ↦ get f.provider d ]

module _ {Num : Type 0} ⦃F : FloatOps Num⦄ where
  -- 1 to 7, which need nothing of the other findings
  unfoldable pub check_alone : Context Num → Finding Num → Work Num
  check_alone ctx finding = check_untrusted (
      check_corroboration (
        check_rules (
          check_attribution ctx.candidates (
            check_resources ctx.known
              (check_evidence (record { working = finding; issues = []; drop = false }))))))

  -- 9, where the provider's source types are known
  unfoldable pub check_sources : Option (List String) → Work Num → Work Num
  check_sources none w = w
  check_sources (some available) w = check_cause available w

  -- the copy of the finding after all nine checks
  unfoldable pub check_finding :
      Context Num → Dict String String → Finding Num → Dict String String × Work Num
  unfolding check_alone check_sources
  check_finding ctx seen finding =
      let w = check_alone ctx finding in
      let (seen', w') = check_duplicates w.working.affected_resources (seen, w) in
      (seen', check_sources (sources_of ctx w'.working) w')

  -- the end of an iteration: the issues are kept, and the copy is published or dropped
  abbrev pub conclude :
      Dict String String
      → Option (List String)
      → Work Num
      → ValidationResult Num
      → ValidationResult Num
  conclude seen sources w result = record {
    findings = if w.drop then result.findings else result.findings ++ w.working ∷ [];
    dropped = if w.drop then result.dropped ++ w.working ∷ [] else result.dropped;
    issues = result.issues ++ w.issues;
    missing_source_types = note_missing w.working.provider sources result.missing_source_types;
    seen_resources = seen;
  }

  unfoldable pub validate_one :
      Context Num → Finding Num → ValidationResult Num → ValidationResult Num
  unfolding check_finding note_missing
  validate_one ctx finding result =
      let (seen, w) = check_finding ctx result.seen_resources finding in
      conclude seen (sources_of ctx w.working) w result

  unfoldable pub validate_from :
      Context Num → List (Finding Num) → ValidationResult Num → ValidationResult Num
  validate_from ctx [] result = result
  validate_from ctx (f ∷ rest) result = validate_from ctx rest (validate_one ctx f result)

abbrev pub empty_result : (Num : Type 0) → ValidationResult Num
empty_result Num = record {
  findings = [];
  dropped = [];
  issues = [];
  missing_source_types = [];
  seen_resources = [];
}

-- `validate_findings`
unfoldable pub validate_findings :
    {Num : Type 0} ⦃F : FloatOps Num⦄
    → List (Finding Num)
    → Dict Provider (List String)
    → Option (PeriodComparison Num)
    → Option (Dict Provider (List String))
    → ValidationResult Num
unfolding candidate_index validate_from
validate_findings {Num} findings known comparison available =
    validate_from
      (record { known = known; candidates = candidate_index comparison; available = available })
      findings (empty_result Num)

module _ {Num : Type 0} where
  -- `unsupported_claim_count`
  unfoldable pub unsupported_claim_count : ValidationResult Num → ℕ
  unsupported_claim_count r = length (select is_error r.issues)

  -- The two counts whose quotient is `supported_claim_ratio`.
  unfoldable pub supported_count : ValidationResult Num → ℕ
  supported_count r = length (
      select (λ (f : Finding Num). is_nonempty f.evidence && is_nonempty f.applied_rules)
        r.findings)
