-- ===== src/Knowledge/Effective.antt =====
-- store.py: which rule `_select` may give, and that it is never one of a later date.
use cloudcause.Prelude.{
  ℕ, ◌≤◌, ◌≡◌, refl, ◌⊎◌, inl, inr, String, Bool, true, false, ◌&&◌, Option, none, some, List, [],
  ◌∷◌, All, All-select, All-implies, All-of_select, All-both, select, arith, ◌==◌,
}
use cloudcause.Prelude.Extremes.{max_by, max_from-All, max_from-largest}
use cloudcause.Contracts.Knowledge.{
  RuleType, rule_type_eq, RuleProvider, rule_provider_eq, BillingRule, effective_on, RuleWarning,
  RuleQueryResult,
}
use cloudcause.Evidence.Checks.{is_retroactive}
use cloudcause.Knowledge.Store.{
  KnowledgeStore, is_requested, specific_pool, prefer, pool_of, from_or_min, is_undated, pick,
  choose, answer, select_rule, citation,
}

and_true : (a b : Bool) → (a && b) ≡ true → (a ≡ true) × (b ≡ true)
and_true a b h = ground arith

-- the rule may be used for the day: it is in force, or it has no dates at all
abbrev pub MayApply : Option ℕ → BillingRule → Type 0
MayApply none rule = Unit
MayApply (some day) rule = (effective_on rule day ≡ true) ⊎ (is_undated rule ≡ true)

-- the choice is a rule of the pool that may be used
abbrev IsFit : (BillingRule → Type 0) → Option ℕ → Option BillingRule → Type 0
IsFit P day none = Unit
IsFit P day (some rule) = P rule × MayApply day rule

max_by-IsFit :
    (P : BillingRule → Type 0) (day : Option ℕ) (rules : List BillingRule)
    → All (λ r. P r × MayApply day r) rules
    → IsFit P day (max_by from_or_min rules)
max_by-IsFit P day [] h = tt
max_by-IsFit P day (r ∷ rest) h =
    max_from-All from_or_min (λ r. P r × MayApply day r) r rest h.0 h.1

pick-IsFit :
    (P : BillingRule → Type 0) (day : Option ℕ) (effective undated pool : List BillingRule)
    → All (λ r. P r × MayApply day r) effective
    → All (λ r. P r × MayApply day r) undated
    → IsFit P day (pick effective undated pool).0
unfolding pick
pick-IsFit P day (r ∷ rest) undated pool h k = max_by-IsFit P day (r ∷ rest) h
pick-IsFit P day [] (r ∷ rest) pool h k = k.0
pick-IsFit P day [] [] pool h k = tt

choose-IsFit :
    (P : BillingRule → Type 0) (day : Option ℕ) (pool : List BillingRule)
    → All P pool
    → IsFit P day (choose day pool).0
unfolding choose
choose-IsFit P none pool h =
    max_by-IsFit P none pool (All-implies P (λ r. P r × Unit {0}) pool (λ r p. (p, tt)) h)
choose-IsFit P (some day) pool h =
    let Fits : BillingRule → Type 0 = λ r. P r × MayApply (some day) r in
    let effective : List BillingRule = select (λ r. effective_on r day) pool in
    let undated : List BillingRule = select is_undated pool in
    pick-IsFit P (some day) effective undated pool
      (All-implies (λ r. P r × (effective_on r day ≡ true)) Fits effective (λ r k. (k.0, inl k.1))
        (All-both P (λ r. effective_on r day ≡ true) effective
          (All-of_select P (λ r. effective_on r day) pool h)
          (All-select (λ r. effective_on r day) pool)))
      (All-implies (λ r. P r × (is_undated r ≡ true)) Fits undated (λ r k. (k.0, inr k.1))
        (All-both P (λ r. is_undated r ≡ true) undated (All-of_select P is_undated pool h)
          (All-select is_undated pool)))

effective-NotRetroactive :
    (store : KnowledgeStore) (rule : BillingRule) (day : Option ℕ) (as_of : ℕ)
    → MayApply day rule
    → is_retroactive (citation store rule day as_of) ≡ false
unfolding citation effective_on
effective-NotRetroactive store rule none as_of h = ground arith
effective-NotRetroactive store rule (some day) as_of h = ground arith

select-Keeps :
    {P : BillingRule → Type 0} (p : BillingRule → Bool) (rules : List BillingRule)
    → ((r : BillingRule) → p r ≡ true → P r)
    → All P (select p rules)
select-Keeps {P} p rules f = All-implies (λ r. p r ≡ true) P (select p rules) f (All-select p rules)

prefer-All :
    (P : BillingRule → Type 0) (specific generic : List BillingRule)
    → All P specific
    → All P generic
    → All P (prefer specific generic).0
unfolding prefer
prefer-All P (r ∷ rest) generic h k = h
prefer-All P [] (r ∷ rest) h k = k
prefer-All P [] [] h k = tt

module _ (lower : String → String) where
  pool_of-All :
      (P : BillingRule → Type 0) (service category : Option String) (requested : List BillingRule)
      → All P requested
      → All P (pool_of lower service category requested).0
  unfolding pool_of specific_pool
  pool_of-All P service category requested h =
      prefer-All P _ _ (All-of_select P _ requested h) (All-of_select P _ requested h)

  -- what an answer promises for the day that is asked about
  abbrev pub Answers : RuleProvider → RuleType → Option ℕ → RuleQueryResult → Type 0
  Answers provider rule_type day result = elim result.rule [
    | none ↦ (result.found ≡ false) × (result.citation ≡ none)
    | some rule ↦
        (result.found ≡ true)
        × ((rule.provider ≡ provider) × (rule.rule_type ≡ rule_type))
        × MayApply day rule
        × elim result.citation [
          | none ↦ ⊥
          | some c ↦
              (c.rule_id ≡ rule.id) × (c.selected_for_date ≡ day) × (is_retroactive c ≡ false)
        ]
  ]

  answer-Answers :
      (store : KnowledgeStore) (provider : RuleProvider) (rule_type : RuleType)
      (service : Option String) (day : Option ℕ) (as_of : ℕ) (warnings : List RuleWarning)
      (o : Option BillingRule)
      → IsFit (λ r. (r.provider ≡ provider) × (r.rule_type ≡ rule_type)) day o
      → Answers provider rule_type day (answer store provider service day as_of warnings o)
  unfolding answer
  answer-Answers store provider rule_type service day as_of warnings none h = (refl, refl)
  answer-Answers store provider rule_type service day as_of warnings (some rule) h =
      (refl, h.0, h.1, (refl, refl, effective-NotRetroactive store rule day as_of h.1))

  -- A look-up that finds a rule gives one of the provider and the type that were asked for. It is in
  -- force on the usage date, or it has no first day, whatever its last day is. The citation that comes
  -- with it is not one that validation takes for retroactive. A look-up that finds none gives neither a
  -- rule nor a citation.
  pub select_rule-Answers :
      (store : KnowledgeStore) (provider : RuleProvider) (rule_type : RuleType)
      (service category : Option String) (day : Option ℕ) (as_of : ℕ)
      → Answers provider rule_type day
          (select_rule lower store provider rule_type service category day as_of)
  unfolding select_rule
  select_rule-Answers store provider rule_type service category day as_of =
      answer-Answers store provider rule_type service day as_of _ _ (
        choose-IsFit _ day _ (
          pool_of-All _ service category _
            (select-Keeps (is_requested provider rule_type) store.rules requested)))
    where
      requested :
          (r : BillingRule)
          → is_requested provider rule_type r ≡ true
          → (r.provider ≡ provider) × (r.rule_type ≡ rule_type)
      requested r h = (
        (rule_provider_eq.same_iff r.provider provider).0
            (and_true (r.provider == provider) (r.rule_type == rule_type) h).0,
        (rule_type_eq.same_iff r.rule_type rule_type).0
            (and_true (r.provider == provider) (r.rule_type == rule_type) h).1,
      )

-- the rules that are in force on the day, in the pool
abbrev pub in_force : ℕ → List BillingRule → List BillingRule
in_force day pool = select (λ r. effective_on r day) pool

-- what the choice says of the rules in force
abbrev pub Latest : ℕ → List BillingRule → Option BillingRule → Type 0
Latest day effective none = effective ≡ []
Latest day effective (some rule) =
    (effective ≡ [])
    ⊎ ((effective_on rule day ≡ true) × All (λ r. from_or_min r ≤ from_or_min rule) effective)

pick-Latest :
    (day : ℕ) (effective undated pool : List BillingRule)
    → All (λ r. effective_on r day ≡ true) effective
    → Latest day effective (pick effective undated pool).0
unfolding pick
pick-Latest day (r ∷ rest) undated pool h = inr (
  max_from-All from_or_min (λ r. effective_on r day ≡ true) r rest h.0 h.1,
  max_from-largest from_or_min r rest,
)
pick-Latest day [] (r ∷ rest) pool h = inl refl
pick-Latest day [] [] pool h = refl

-- Of the rules of a pool that are in force on the usage date, none starts later than the one that is
-- chosen; a rule that is not in force is chosen only if none is.
pub choose-Latest :
    (day : ℕ) (pool : List BillingRule) → Latest day (in_force day pool) (choose (some day) pool).0
unfolding choose
choose-Latest day pool =
    pick-Latest day (in_force day pool) (select is_undated pool) pool
      (All-select (λ r. effective_on r day) pool)
