-- ===== src/Knowledge/Citations.antt =====
-- store.py: the ids of a store's rules, and the review dates of what a report cites.
use cloudcause.Prelude.{
  ℕ, ◌≡◌, subst, ap, inl, inr, String, false, Option, none, some, List, [], ◌∷◌, All, any,
  string_eq, Bool-cases, arith,
}
use cloudcause.Contracts.Knowledge.{BillingRule}
use cloudcause.Knowledge.Store.{
  KnowledgeStore, has_id, has_duplicates, new_store, first_with_id, rule_by_id,
}

-- the rules of the list are found under their ids by this search
abbrev FoundIn : List BillingRule → List BillingRule → Type 0
FoundIn rules found = All (λ (r : BillingRule). first_with_id r.id rules ≡ some r) found

FoundIn-cons :
    (x : BillingRule) (rules found : List BillingRule)
    → any (has_id x.id) found ≡ false
    → FoundIn rules found
    → FoundIn (x ∷ rules) found
unfolding first_with_id
FoundIn-cons x rules [] h k = tt
FoundIn-cons x rules (r ∷ rest) h k = (
  ground (arith, string_eq.same_iff x.id r.id, string_eq.same_iff r.id x.id, h, k.0),
  FoundIn-cons x rules rest (ground (arith, h)) k.1,
)

has_duplicates-FoundIn :
    (rules : List BillingRule) → has_duplicates rules ≡ false → FoundIn rules rules
unfolding has_duplicates first_with_id
has_duplicates-FoundIn [] h = tt
has_duplicates-FoundIn (r ∷ rest) h = (
  ground (arith, string_eq.same_iff r.id r.id),
  FoundIn-cons r rest rest (ground (arith, h)) (has_duplicates-FoundIn rest (ground (arith, h))),
)

some-inj : {x y : KnowledgeStore} → some x ≡ some y → x ≡ y
some-inj {x} h = ap (λ o. elim o [ none ↦ x | some s ↦ s ]) h

rules_of : Option KnowledgeStore → List BillingRule
rules_of none = []
rules_of (some s) = s.rules

new_store-rules :
    (rules : List BillingRule) (max_age : ℕ) (version : String) (store : KnowledgeStore)
    → new_store rules max_age version ≡ some store
    → (has_duplicates rules ≡ false) × (rules ≡ store.rules)
unfolding new_store rules_of
new_store-rules rules max_age version store h = elim (Bool-cases (has_duplicates rules)) [
  | inl twice ↦ ground (arith, twice, h)
  | inr once ↦ (once, ground (arith, once, ap rules_of h))
]

-- In a store that its constructor accepts, every rule is found under its own id: no rule hides
-- another.
pub new_store-rule_by_id :
    (rules : List BillingRule) (max_age : ℕ) (version : String) (store : KnowledgeStore)
    → new_store rules max_age version ≡ some store
    → All (λ (r : BillingRule). rule_by_id store r.id ≡ some r) rules
new_store-rule_by_id rules max_age version store h =
    let (once, same) = new_store-rules rules max_age version store h in
    subst
      (λ (found : List BillingRule).
        All (λ (r : BillingRule). first_with_id r.id found ≡ some r) rules)
      same (has_duplicates-FoundIn rules once)
