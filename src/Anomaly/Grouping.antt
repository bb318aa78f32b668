-- ===== src/Anomaly/Grouping.antt =====
-- packages/anomaly/src/cloudcause_anomaly/comparison.py: the loop over the records against a filter.
use cloudcause.Prelude.{
  ◌≡◌, refl, ap, ◌∙◌, inl, inr, String, Bool, true, false, not, ◌&&◌, ◌||◌, Option, none, some,
  List, [], ◌∷◌, select, string_eq, ◌==◌, Bool-cases, arith, if◌then◌else◌,
}
use cloudcause.Prelude.Dict.{Dict, get, get_or, get-put}
use cloudcause.Prelude.Floats.{FloatOps, ◌⊕◌}
use cloudcause.Contracts.Common.{Provider, DateRange, within}
use cloudcause.Contracts.Analytics.{Dimension, resource}
use cloudcause.Contracts.Records.{CostRecord}
use cloudcause.Anomaly.Aggregates.{Aggregate, new_aggregate, add, place, add_record, add_records}
use cloudcause.Anomaly.Compare.{provider_aggregates, candidate_key, of_provider}

abbrev has_key : String → Option (Dimension × String) → Bool
has_key key none = false
has_key key (some (dimension, k)) = k == key

module _ {Num : Type 0} ⦃F : FloatOps Num⦄ where
  module _ (key_of : CostRecord Num → Option (Dimension × String)) (provider : Provider)
      (current baseline : DateRange) where
    -- the record is in one of the two periods and has this key
    abbrev pub belongs : String → CostRecord Num → Bool
    belongs key r =
        (within current r.usage_date || within baseline r.usage_date) && has_key key (key_of r)

    -- the records, added up one after another
    abbrev pub add_all : Aggregate Num → List (CostRecord Num) → Aggregate Num
    add_all a [] = a
    add_all a (r ∷ rest) = add_all (add r (within current r.usage_date) a) rest

    abbrev pub start_from : String → Option (Dimension × String) → Aggregate Num
    start_from key none = new_aggregate key resource provider
    start_from key (some (dimension, _)) = new_aggregate key dimension provider

    -- the aggregate of the records that belong to one key, the first of which gives its dimension
    abbrev pub aggregate_of : String → List (CostRecord Num) → Option (Aggregate Num)
    aggregate_of key [] = none
    aggregate_of key (r ∷ rest) = some (add_all (start_from key (key_of r)) (r ∷ rest))

    -- the aggregate that is there already, continued
    abbrev pub continue_with :
        String → Option (Aggregate Num) → List (CostRecord Num) → Option (Aggregate Num)
    continue_with key none rs = aggregate_of key rs
    continue_with key (some a) rs = some (add_all a rs)

    place-get :
        (key : String) (c : Bool) (r : CostRecord Num) (o : Option (Dimension × String))
        (d : Dict String (Aggregate Num))
        → get key (place provider c r o d)
          ≡ (if has_key key o then some (add r c (get_or key (start_from key o) d)) else get key d)
    unfolding place
    place-get key c r none d = refl
    place-get key c r (some (dimension, k)) d = elim (Bool-cases (k == key)) [
      | inl same ↦
          let eq : k ≡ key = (string_eq.same_iff k key).0 same in
          get-put k key _ d
          ∙ cc (same, ap (λ j. some (add r c (get_or j (new_aggregate j dimension provider) d))) eq)
      | inr other ↦ get-put k key _ d ∙ cc other
    ]

    add_record-get :
        (key : String) (r : CostRecord Num) (d : Dict String (Aggregate Num))
        → get key (add_record key_of provider current baseline r d) ≡ (
            if belongs key r
            then some
                (add r (within current r.usage_date) (get_or key (start_from key (key_of r)) d))
            else get key d)
    unfolding add_record
    add_record-get key r d =
        ground (arith, place-get key (within current r.usage_date) r (key_of r) d)

    continue_with-step :
        (key : String) (o : Option (Aggregate Num)) (r : CostRecord Num)
        (rs : List (CostRecord Num))
        → continue_with key
            (some (
              add r
                (within current r.usage_date)
                (elim o [ none ↦ start_from key (key_of r) | some a ↦ a ])))
            rs
          ≡ continue_with key o (r ∷ rs)
    continue_with-step key none r rs = refl
    continue_with-step key (some a) r rs = refl

    continue_with-nil : (key : String) (o : Option (Aggregate Num)) → o ≡ continue_with key o []
    continue_with-nil key none = refl
    continue_with-nil key (some a) = refl

    pub add_records-get :
        (key : String) (rs : List (CostRecord Num)) (d : Dict String (Aggregate Num))
        → get key (add_records key_of provider current baseline rs d)
          ≡ continue_with key (get key d) (select (belongs key) rs)
    unfolding add_records
    add_records-get key [] d = continue_with-nil key (get key d)
    add_records-get key (r ∷ rest) d = elim (Bool-cases (belongs key r)) [
      | inl mine ↦ cc (
        mine,
        add_records-get key rest (add_record key_of provider current baseline r d),
        add_record-get key r d,
        continue_with-step key (get key d) r (select (belongs key) rest),
      )
      | inr foreign ↦ cc (
        foreign,
        add_records-get key rest (add_record key_of provider current baseline r d),
        add_record-get key r d,
      )
    ]

  -- The aggregate that a comparison keeps under a key is what the records of that key in the two
  -- periods add up to, in their order; a key that no record has, has no aggregate.
  pub provider_aggregates-get :
      (records : List (CostRecord Num)) (provider : Provider) (current baseline : DateRange)
      (key : String)
      → get key (provider_aggregates records provider current baseline)
        ≡ aggregate_of candidate_key provider current baseline key (
            select
              (belongs candidate_key provider current baseline key)
              (of_provider provider records))
  unfolding provider_aggregates get
  provider_aggregates-get records provider current baseline key =
      add_records-get candidate_key provider current baseline key (of_provider provider records) []

  -- what a list of records costs in one of the two periods
  abbrev pub cost_in : DateRange → Bool → Num → List (CostRecord Num) → Num
  cost_in current now total [] = total
  cost_in current now total (r ∷ rest) =
      cost_in current now
        (if (if within current r.usage_date then now else not now)
          then total ⊕ r.effective_cost
          else total)
        rest

  -- Records that are added to an aggregate one after another put their effective cost into exactly
  -- one of its two sums: those of the current period into the current cost, in their order, and the
  -- others into the baseline cost.
  pub add_all-costs :
      (key_of : CostRecord Num → Option (Dimension × String)) (provider : Provider)
      (current baseline : DateRange) (a : Aggregate Num) (rs : List (CostRecord Num))
      → ((add_all key_of provider current baseline a rs).current_cost
          ≡ cost_in current true a.current_cost rs)
        × ((add_all key_of provider current baseline a rs).baseline_cost
            ≡ cost_in current false a.baseline_cost rs)
  unfolding add
  add_all-costs key_of provider current baseline a [] = (refl, refl)
  add_all-costs key_of provider current baseline a (r ∷ rs) =
      elim (Bool-cases (within current r.usage_date)) [
        | inl now ↦ ground (
          arith,
          add_all-costs key_of provider current baseline (add r (within current r.usage_date) a) rs,
        )
        | inr before ↦ ground (
          arith,
          add_all-costs key_of provider current baseline (add r (within current r.usage_date) a) rs,
        )
      ]
