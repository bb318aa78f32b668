-- ===== src/Anomaly/Material.antt =====
-- packages/anomaly/src/cloudcause_anomaly/comparison.py: which candidates a comparison holds, and when
-- a spike is dated.
use cloudcause.Prelude.{
  ℕ, ◌≤◌, ◌≡◌, refl, true, false, Option, none, some, List, [], ◌∷◌, All, All-take, All-select,
  All-implies, ◌⊎◌, Option-cases, length, length-take, take, ap, ◌++◌, inl, inr, Bool-cases, nat_eq,
  arith,
}
use cloudcause.Prelude.Dict.{get_or}
use cloudcause.Prelude.Floats.{FloatOps, dec, ◌≺◌, ◌≼◌}
use cloudcause.Contracts.Common.{Provider, DateRange, dates}
use cloudcause.Contracts.Analytics.{AnalyticsConfig, AnomalyCandidate}
use cloudcause.Contracts.Records.{CostRecord}
use cloudcause.Anomaly.Aggregates.{Aggregate}
use cloudcause.Anomaly.Compare.{
  is_material, material_candidates, compare_provider, first_above, first_spike, spike_threshold,
}

length-take-le {ℓ} : {A : Type ℓ} (n : ℕ) (xs : List A) → length (take n xs) ≤ n
length-take-le n xs = omega (arith, length-take n xs)

module _ {Num : Type 0} ⦃F : FloatOps Num⦄ where
  -- A change that is worth an explanation: at least the minimum in money and, unless it is new spend or
  -- has no percentage, at least the minimum percentage too.
  abbrev pub Material : AnalyticsConfig Num → AnomalyCandidate Num → Type 0
  Material config c =
      ((config.min_absolute_change ≼ c.absolute_change) ≡ true)
      × ((c.is_new ≡ true)
          ⊎ ((c.percent_change ≡ none)
              ⊎ ((p : Num) × (c.percent_change ≡ some p)
                  × ((config.min_percent_change ≼ p) ≡ true))))

  is_material-Material :
      (config : AnalyticsConfig Num) (c : AnomalyCandidate Num)
      → is_material config c ≡ true
      → Material config c
  unfolding is_material
  is_material-Material config c h = elim (Option-cases c.percent_change) [
    | inl e ↦ ground (arith, h, e)
    | inr (p, e) ↦ elim (Bool-cases c.is_new) [
      | inl new ↦ ground (arith, h, new)
      | inr old ↦
          let k = rw (e, is_material) at h in
          (ground (arith, k, old), inr (inr (p, e, ground (arith, k, old))))
    ]
  ]

  -- Every candidate that a comparison hands to the agents has grown by at least the minimum in money and,
  -- unless it is new spend or has no percentage, by at least the minimum percentage. There are no more
  -- of them than the configured maximum.
  pub compare_provider-Material :
      (records : List (CostRecord Num)) (provider : Provider) (current baseline : DateRange)
      (config : AnalyticsConfig Num)
      → let found = (compare_provider records provider current baseline config).candidates in
        All (Material config) found × (length found ≤ config.max_candidates_per_provider)
  unfolding compare_provider material_candidates
  compare_provider-Material records provider current baseline config = (
    All-take _ config.max_candidates_per_provider _ (
        All-implies _ (Material config) _ (is_material-Material config)
          (All-select (is_material config) _)),
    length-take-le config.max_candidates_per_provider _,
  )

  -- what the answer of the search for a spike says of the days searched
  abbrev pub IsFirst : (ℕ → Num) → Num → List ℕ → Option ℕ → Type 0
  IsFirst spent threshold days none = All (λ day. (threshold ≺ spent day) ≡ false) days
  IsFirst spent threshold days (some day) =
      (before : List ℕ) × (after : List ℕ) × (days ≡ before ++ day ∷ after)
      × All (λ d. (threshold ≺ spent d) ≡ false) before
      × ((threshold ≺ spent day) ≡ true)

  IsFirst-skip :
      (spent : ℕ → Num) (threshold : Num) (day : ℕ) (rest : List ℕ) (o : Option ℕ)
      → (threshold ≺ spent day) ≡ false
      → IsFirst spent threshold rest o
      → IsFirst spent threshold (day ∷ rest) o
  IsFirst-skip spent threshold day rest none h k = (h, k)
  IsFirst-skip spent threshold day rest (some d) h (before, after, same, below, above) =
      (day ∷ before, after, ap (λ xs. day ∷ xs) same, (h, below), above)

  first_above-IsFirst :
      (spent : ℕ → Num) (threshold : Num) (days : List ℕ)
      → IsFirst spent threshold days (first_above spent threshold days)
  unfolding first_above
  first_above-IsFirst spent threshold [] = tt
  first_above-IsFirst spent threshold (day ∷ rest) = elim (Bool-cases (threshold ≺ spent day)) [
    | inl above ↦ rw above ([], rest, refl, tt, above)
    | inr below ↦
        rw below
          (IsFirst-skip spent threshold day rest _ below (first_above-IsFirst spent threshold rest))
  ]

  -- The spike date of an aggregate is the first day of the current period whose cost is over one and
  -- a half times the daily average of the baseline (and over a cent): no earlier day is over it, and
  -- where there is no date, no day is.
  pub first_spike-IsFirst :
      (a : Aggregate Num) (current : DateRange) (average : Num)
      → IsFirst
          (λ day. get_or day (dec 0 0) a.current_daily)
          (spike_threshold average)
          (dates current)
          (first_spike a current average)
  unfolding first_spike
  first_spike-IsFirst a current average =
      first_above-IsFirst _ (spike_threshold average) (dates current)
