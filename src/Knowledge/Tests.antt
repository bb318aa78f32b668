-- ===== src/Knowledge/Tests.antt =====
-- A store of two rules for the same service, the second of which replaces the first.
use cloudcause.Prelude.{◌≡◌, refl, String, none, some, List, [], ◌∷◌, All}
use cloudcause.Contracts.Common.{aws}
use cloudcause.Contracts.Knowledge.{BillingRule, cost_driver, of_provider, supported, effective_on}
use cloudcause.Knowledge.Store.{KnowledgeStore, new_store, rule_by_id, choose, select_rule}
use cloudcause.Knowledge.Effective.{Answers, Latest, in_force, select_rule-Answers, choose-Latest}
use cloudcause.Knowledge.Citations.{new_store-rule_by_id}

abbrev old_price : BillingRule
old_price = record {
  id = "price-1";
  provider = of_provider aws;
  rule_type = cost_driver;
  service = some "EC2";
  valid_from = some 100;
  valid_to = none;
  reviewed_at = some 90;
  matches_services = "ec2" ∷ [];
  matches_categories = [];
  source_url = "https://example.org/pricing";
  confidence = supported;
  version = "1";
}

abbrev new_price : BillingRule
new_price = record old_price { id = "price-2"; valid_from = some 200 }

abbrev prices : List BillingRule
prices = old_price ∷ new_price ∷ []

abbrev price_store : KnowledgeStore
price_store = record { rules = prices; review_max_age_days = 30; supported_focus = "1.2" }

abbrev as_written : String → String
as_written s = s

select_rule-Answers_example : Answers as_written (of_provider aws) cost_driver (some 250) (
    select_rule as_written price_store
      (of_provider aws)
      cost_driver
      (some "EC2")
      none
      (some 250)
      260)
select_rule-Answers_example =
    select_rule-Answers as_written price_store (of_provider aws) cost_driver (some "EC2") none
      (some 250) 260

-- the later price is the one that is chosen
chosen_price : (choose (some 250) prices).0 ≡ some new_price
unfolding choose effective_on
chosen_price = refl

choose-Latest_example : Latest 250 (in_force 250 prices) (choose (some 250) prices).0
choose-Latest_example = choose-Latest 250 prices

new_store-rule_by_id_example :
    All (λ (r : BillingRule). rule_by_id price_store r.id ≡ some r) prices
unfolding new_store
new_store-rule_by_id_example = new_store-rule_by_id prices 30 "1.2" price_store refl
