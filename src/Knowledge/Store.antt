-- ===== src/Knowledge/Store.antt =====
-- packages/knowledge/src/cloudcause_knowledge/store.py: `KnowledgeStore` and `build_knowledge_provenance`.
-- `lower` is Python's `str.lower`, which is a parameter; today's date is an argument.
use cloudcause.Prelude.{
  ℕ, ◌-◌, String, Bool, true, false, not, ◌&&◌, ◌||◌, Option, none, some, List, [], ◌∷◌, ◌++◌, map,
  select, any, contains, ltb, leb, string_eq, nat_eq, ◌==◌, if◌then◌else◌,
}
use cloudcause.Prelude.Extremes.{max_from, max_by, min_from, min_by}
use cloudcause.Prelude.Sorting.{sort_by}
use cloudcause.Prelude.Text.{text_lt, has_part}
use cloudcause.Contracts.Investigation.{RuleCitation, truthy, is_nonempty}
use cloudcause.Contracts.Knowledge.{
  RuleType, cost_driver, data_freshness, export_schema, api_deprecation, pricing_source,
  focus_version, billing_change, rule_type_eq, RuleProvider, rule_provider_eq, deprecated,
  BillingRule, effective_on, RuleWarning, used_generic, no_rule, no_effective_date, none_effective,
  review_overdue, marked_deprecated, RuleQueryResult, KnowledgeProvenance,
}

pub record KnowledgeStore : Type 0 where
  pub rules : List BillingRule
  pub review_max_age_days : ℕ
  pub supported_focus : String

abbrev pub has_id : String → BillingRule → Bool
has_id id rule = rule.id == id

-- `__init__`; `none` is the KnowledgeError for duplicate ids
unfoldable pub has_duplicates : List BillingRule → Bool
has_duplicates [] = false
has_duplicates (r ∷ rest) = any (has_id r.id) rest || has_duplicates rest

unfoldable pub new_store : List BillingRule → ℕ → String → Option KnowledgeStore
unfolding has_duplicates
new_store rules review_max_age_days version =
    if has_duplicates rules
    then none
    else some (record {
      rules = rules;
      review_max_age_days = review_max_age_days;
      supported_focus = version;
    })

-- `rule_by_id`
unfoldable pub first_with_id : String → List BillingRule → Option BillingRule
first_with_id id [] = none
first_with_id id (r ∷ rest) = if has_id id r then some r else first_with_id id rest

abbrev pub rule_by_id : KnowledgeStore → String → Option BillingRule
rule_by_id store id = first_with_id id store.rules

-- `is_stale`; a review in the future is not stale, as its age is negative
unfoldable pub is_stale : KnowledgeStore → BillingRule → ℕ → Bool
is_stale store rule as_of = elim rule.reviewed_at [
  | none ↦ true
  | some day ↦ ltb store.review_max_age_days (as_of - day)
]

-- `citation`
unfoldable pub citation : KnowledgeStore → BillingRule → Option ℕ → ℕ → RuleCitation
unfolding is_stale
citation store rule usage_date as_of = record {
  rule_id = rule.id;
  valid_from = rule.valid_from;
  valid_to = rule.valid_to;
  reviewed_at = rule.reviewed_at;
  source_url = rule.source_url;
  is_stale = is_stale store rule as_of;
  selected_for_date = usage_date;
}

-- a filter that is given and not empty
abbrev pub given : Option String → Option String
given o = if truthy o then o else none

abbrev has_category : Option String → BillingRule → Bool
has_category category rule = elim (given category) [
  | none ↦ false
  | some c ↦ contains c rule.matches_categories
]

abbrev pub is_requested : RuleProvider → RuleType → BillingRule → Bool
is_requested provider rule_type rule = (rule.provider == provider) && (rule.rule_type == rule_type)

abbrev is_generic : BillingRule → Bool
is_generic rule =
    not (is_nonempty rule.matches_services) && not (is_nonempty rule.matches_categories)

unfoldable pub best_of : List ℕ → ℕ
best_of [] = 0
best_of (n ∷ rest) = let best = best_of rest in if ltb best n then n else best

-- rule.valid_from or date.min, and or date.max, as ordinals
abbrev pub from_or_min : BillingRule → ℕ
from_or_min rule = elim rule.valid_from [ none ↦ 1 | some day ↦ day ]

abbrev from_or_max : BillingRule → ℕ
from_or_max rule = elim rule.valid_from [ none ↦ 3652059 | some day ↦ day ]

abbrev pub is_undated : BillingRule → Bool
is_undated rule = elim rule.valid_from [ none ↦ true | some _ ↦ false ]

abbrev warn_nearest : Option BillingRule → List RuleWarning
warn_nearest none = []
warn_nearest (some r) = none_effective r.id ∷ []

-- from the rules of the pool in force on the day, and those without dates
unfoldable pub pick :
    List BillingRule → List BillingRule → List BillingRule → Option BillingRule × List RuleWarning
unfolding max_from min_from
pick (r ∷ rest) undated pool = (some (max_from from_or_min r rest), [])
pick [] (r ∷ _) pool = (some r, no_effective_date r.id ∷ [])
pick [] [] pool = (none, warn_nearest (min_by from_or_max pool))

-- the rule that is chosen from the pool, if any, and what is warned of
unfoldable pub choose : Option ℕ → List BillingRule → Option BillingRule × List RuleWarning
unfolding effective_on max_from pick
choose none pool = (max_by from_or_min pool, [])
choose (some day) pool = pick (select (λ r. effective_on r day) pool) (select is_undated pool) pool

abbrev overdue : RuleCitation → BillingRule → List RuleWarning
overdue c rule = if c.is_stale then review_overdue rule.id ∷ [] else []

abbrev deprecation : BillingRule → List RuleWarning
deprecation rule = elim rule.confidence [ deprecated ↦ marked_deprecated rule.id ∷ [] | _ ↦ [] ]

-- the result, from the choice and the warnings that led to it
unfoldable pub answer :
    KnowledgeStore
    → RuleProvider
    → Option String
    → Option ℕ
    → ℕ
    → List RuleWarning
    → Option BillingRule
    → RuleQueryResult
unfolding citation
answer store provider service usage_date as_of warnings none = record {
  found = false;
  rule = none;
  citation = none;
  warnings = warnings;
  requested_provider = some provider;
  requested_service = service;
  requested_date = usage_date;
}
answer store provider service usage_date as_of warnings (some rule) =
    let c = citation store rule usage_date as_of in
    record {
      found = true;
      rule = some rule;
      citation = some c;
      warnings = warnings ++ (overdue c rule ++ deprecation rule);
      requested_provider = some provider;
      requested_service = service;
      requested_date = usage_date;
    }

unfoldable pub prefer : List BillingRule → List BillingRule → List BillingRule × List RuleWarning
prefer (r ∷ rest) generic = (r ∷ rest, [])
prefer [] (r ∷ rest) = (r ∷ rest, used_generic ∷ [])
prefer [] [] = ([], no_rule ∷ [])

module _ (lower : String → String) where
  abbrev matches_pattern : String → List String → Bool
  matches_pattern lowered patterns =
      any (λ p. has_part (lower p) lowered || has_part lowered (lower p)) patterns

  abbrev service_score : BillingRule → String → ℕ
  service_score rule name =
      if truthy rule.service && elim rule.service [ none ↦ false | some s ↦ lower s == lower name ]
      then 2
      else if matches_pattern (lower name) rule.matches_services
      then 1
      else 0

  -- `_match_score`
  unfoldable pub match_score : Option String → Option String → BillingRule → ℕ
  match_score service category rule =
      if has_category category rule then 3 else elim (given service) [
        | some name ↦ service_score rule name
        | none ↦ elim (given category) [
          | some _ ↦ 0
          | none ↦
              if is_nonempty rule.matches_services || is_nonempty rule.matches_categories
              then 0
              else 1
        ]
      ]

  -- the requested rules with the best score above zero
  unfoldable pub specific_pool : Option String → Option String → List BillingRule → List BillingRule
  unfolding match_score best_of
  specific_pool service category requested =
      let best = best_of (map (match_score service category) requested) in
      select
        (λ r. (match_score service category r == best) && ltb 0 (match_score service category r))
        requested

  -- the pool, or the generic rules in its place, with the warnings so far
  unfoldable pub pool_of :
      Option String → Option String → List BillingRule → List BillingRule × List RuleWarning
  unfolding specific_pool prefer
  pool_of service category requested =
      prefer (specific_pool service category requested) (select is_generic requested)

  -- `_select`
  unfoldable pub select_rule :
      KnowledgeStore
      → RuleProvider
      → RuleType
      → Option String
      → Option String
      → Option ℕ
      → ℕ
      → RuleQueryResult
  unfolding pool_of choose answer
  select_rule store provider rule_type service category usage_date as_of =
      let (pool, fallback) =
        pool_of service category (select (is_requested provider rule_type) store.rules) in
      let (chosen, warnings) = choose usage_date pool in
      answer store provider service usage_date as_of
        (if is_nonempty pool then fallback ++ warnings else fallback) chosen

  -- the look-ups, each with its type of rule and the filters that it passes on
  abbrev pub get_billing_rule :
      KnowledgeStore
      → RuleProvider
      → Option String
      → Option String
      → Option ℕ
      → RuleType
      → ℕ
      → RuleQueryResult
  get_billing_rule store provider service category usage_date rule_type as_of =
      select_rule store provider rule_type service category usage_date as_of

  abbrev pub get_cost_driver_definitions :
      KnowledgeStore → RuleProvider → Option String → Option String → Option ℕ → ℕ → RuleQueryResult
  get_cost_driver_definitions store provider service category usage_date today =
      select_rule store provider cost_driver service category usage_date today

  abbrev pub get_provider_data_freshness_rules :
      KnowledgeStore → RuleProvider → Option ℕ → ℕ → RuleQueryResult
  get_provider_data_freshness_rules store provider usage_date today =
      select_rule store provider data_freshness none none usage_date today

  abbrev pub get_export_schema_version :
      KnowledgeStore → RuleProvider → Option ℕ → ℕ → RuleQueryResult
  get_export_schema_version store provider usage_date today =
      select_rule store provider export_schema none none usage_date today

  abbrev pub get_api_deprecation_status :
      KnowledgeStore → RuleProvider → Option String → Option ℕ → ℕ → RuleQueryResult
  get_api_deprecation_status store provider api usage_date today =
      select_rule store provider api_deprecation api none usage_date today

  abbrev pub get_pricing_source :
      KnowledgeStore → RuleProvider → Option String → ℕ → RuleQueryResult
  get_pricing_source store provider service today =
      select_rule store provider pricing_source service none none today

-- `get_known_billing_change`, whose rule dates are between `start` and `end` where both are given
abbrev between : ℕ → ℕ → BillingRule → Bool
between start end rule = elim rule.valid_from [
  | none ↦ false
  | some day ↦ leb start day && leb day end
]

abbrev in_span : Option ℕ → Option ℕ → List BillingRule → List BillingRule
in_span (some start) (some end) rules = select (between start end) rules
in_span _ _ rules = rules

abbrev from_or_least : BillingRule → ℕ
from_or_least rule = elim rule.valid_from [ none ↦ 1 | some day ↦ day ]

abbrev pub starts_before : BillingRule → BillingRule → Bool
starts_before a b = ltb (from_or_least a) (from_or_least b)

unfoldable pub get_known_billing_change :
    KnowledgeStore → RuleProvider → Option ℕ → Option ℕ → List BillingRule
unfolding sort_by
get_known_billing_change store provider start end = sort_by starts_before (
    in_span start end (
      select (λ (r : BillingRule). (r.provider == provider) && (r.rule_type == billing_change))
        store.rules))

-- `focus_rule`; `none` is the UnsupportedSchemaVersionError
abbrev is_focus : String → BillingRule → Bool
is_focus version rule = (rule.rule_type == focus_version) && (rule.version == version)

abbrev focus_answer : KnowledgeStore → ℕ → List BillingRule → Option RuleQueryResult
focus_answer store as_of [] = none
focus_answer store as_of (rule ∷ _) =
    let c = citation store rule none as_of in
    some (record {
      found = true;
      rule = some rule;
      citation = some c;
      warnings = if c.is_stale then review_overdue rule.id ∷ [] else [];
      requested_provider = none;
      requested_service = none;
      requested_date = none;
    })

unfoldable pub focus_rule : KnowledgeStore → Option String → ℕ → Option RuleQueryResult
unfolding citation
focus_rule store version as_of = focus_answer store as_of (
    select
      (is_focus
        (if truthy version then elim version [ none ↦ "" | some v ↦ v ] else store.supported_focus))
      store.rules)

-- `build_knowledge_provenance`: sorted sets of ids, and the first and last day of review
abbrev distinct : List String → List String → List String
distinct [] seen = seen
distinct (id ∷ rest) seen = distinct rest (if contains id seen then seen else seen ++ id ∷ [])

abbrev reviews : List RuleCitation → List ℕ
reviews [] = []
reviews (c ∷ rest) = elim c.reviewed_at [ none ↦ reviews rest | some day ↦ day ∷ reviews rest ]

unfoldable pub build_knowledge_provenance : KnowledgeStore → List RuleCitation → KnowledgeProvenance
unfolding sort_by max_from min_from
build_knowledge_provenance store citations = record {
  focus_version = store.supported_focus;
  rule_ids = sort_by text_lt (distinct (map (λ (c : RuleCitation). c.rule_id) citations) []);
  oldest_review_date = min_by (λ day. day) (reviews citations);
  newest_review_date = max_by (λ day. day) (reviews citations);
  stale_rule_ids = sort_by text_lt (
      distinct
        (map (λ (c : RuleCitation). c.rule_id)
          (select (λ (c : RuleCitation). c.is_stale) citations))
        []);
  review_max_age_days = store.review_max_age_days;
}
