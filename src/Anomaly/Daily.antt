-- ===== src/Anomaly/Daily.antt =====
-- packages/anomaly/src/cloudcause_anomaly/comparison.py: `daily_totals`.
use cloudcause.Prelude.{
  ℕ, ◌≡◌, refl, inl, inr, Bool-cases, Eq, ◌&&◌, List, [], ◌∷◌, map, select, nat_eq, ◌==◌, arith,
  if◌then◌else◌,
}
use cloudcause.Prelude.Dict.{Dict, get, put, get_or, get-put}
use cloudcause.Prelude.Floats.{FloatOps, dec, ◌⊕◌, round}
use cloudcause.Contracts.Common.{DateRange, dates, within}
use cloudcause.Contracts.Analytics.{DailyTotal}
use cloudcause.Contracts.Records.{CostRecord}

module _ {Num : Type 0} ⦃F : FloatOps Num⦄ where
  -- totals[day] += cost, where a missing day counts as 0.0
  unfoldable pub add_to {κ} : {K : Type κ} ⦃e : Eq K⦄ → K → Num → Dict K Num → Dict K Num
  add_to day cost totals = put day (get_or day (dec 0 0) totals ⊕ cost) totals

  -- the loop over the records, for one of the two costs
  unfoldable pub totals_from :
      (CostRecord Num → Num) → DateRange → List (CostRecord Num) → Dict ℕ Num → Dict ℕ Num
  unfolding add_to
  totals_from cost period [] totals = totals
  totals_from cost period (r ∷ rest) totals =
      totals_from cost period rest
        (if within period r.usage_date then add_to r.usage_date (cost r) totals else totals)

  abbrev pub billed_cost_of : CostRecord Num → Num
  billed_cost_of r = r.billed_cost

  abbrev pub effective_cost_of : CostRecord Num → Num
  effective_cost_of r = r.effective_cost

  -- one `DailyTotal`, from what the two dictionaries hold
  abbrev pub daily_total : (ℕ → Num) → (ℕ → Num) → ℕ → DailyTotal Num
  daily_total billed effective day = record {
    usage_date = day;
    billed_cost = round 6 (billed day);
    effective_cost = round 6 (effective day);
  }

  unfoldable pub daily_totals : List (CostRecord Num) → DateRange → List (DailyTotal Num)
  unfolding totals_from
  daily_totals records period =
      let billed = totals_from billed_cost_of period records [] in
      let effective = totals_from effective_cost_of period records [] in
      map (daily_total (λ day. get_or day (dec 0 0) billed) (λ day. get_or day (dec 0 0) effective))
        (dates period)

  -- the records of one day in the period, by a filter
  abbrev pub on_day : DateRange → ℕ → List (CostRecord Num) → List (CostRecord Num)
  on_day period day records =
      select (λ (r : CostRecord Num). within period r.usage_date && (r.usage_date == day)) records

  -- what is spent on one day, by adding up its records
  abbrev pub spent_from : (CostRecord Num → Num) → Num → List (CostRecord Num) → Num
  spent_from cost total [] = total
  spent_from cost total (r ∷ rest) = spent_from cost (total ⊕ cost r) rest

  totals_from-get :
      (cost : CostRecord Num → Num) (period : DateRange) (day : ℕ) (records : List (CostRecord Num))
      (totals : Dict ℕ Num)
      → get_or day (dec 0 0) (totals_from cost period records totals)
        ≡ spent_from cost (get_or day (dec 0 0) totals) (on_day period day records)
  unfolding totals_from add_to
  totals_from-get cost period day [] totals = refl
  totals_from-get cost period day (r ∷ rest) totals =
      elim (Bool-cases (within period r.usage_date)) [
        | inl inside ↦ elim (Bool-cases (r.usage_date == day)) [
          | inl same ↦ ground (
            arith,
            totals_from-get cost period day rest (add_to r.usage_date (cost r) totals),
            get-put r.usage_date day (get_or r.usage_date (dec 0 0) totals ⊕ cost r) totals,
            nat_eq.same_iff r.usage_date day,
          )
          | inr other ↦ ground (
            arith,
            totals_from-get cost period day rest (add_to r.usage_date (cost r) totals),
            get-put r.usage_date day (get_or r.usage_date (dec 0 0) totals ⊕ cost r) totals,
          )
        ]
        | inr outside ↦ ground (arith, totals_from-get cost period day rest totals)
      ]

  map-daily_total-cong :
      (f f' g g' : ℕ → Num)
      → ((day : ℕ) → f day ≡ f' day)
      → ((day : ℕ) → g day ≡ g' day)
      → (ds : List ℕ) → map (daily_total f g) ds ≡ map (daily_total f' g') ds
  map-daily_total-cong f f' g g' h k [] = refl
  map-daily_total-cong f f' g g' h k (day ∷ ds) =
      cc (h day, k day, map-daily_total-cong f f' g g' h k ds)

  -- The daily totals have one entry for each day of the period, in order, and the entry of a day
  -- holds the rounded sums of the costs of exactly the records of that day, in their order.
  pub daily_totals_lem :
      (records : List (CostRecord Num)) (period : DateRange)
      → daily_totals records period
        ≡ map
            (daily_total
              (λ day. spent_from billed_cost_of (dec 0 0) (on_day period day records))
              (λ day. spent_from effective_cost_of (dec 0 0) (on_day period day records)))
            (dates period)
  unfolding daily_totals get
  daily_totals_lem records period =
      map-daily_total-cong _ _ _ _ (λ day. totals_from-get billed_cost_of period day records [])
        (λ day. totals_from-get effective_cost_of period day records []) (dates period)
