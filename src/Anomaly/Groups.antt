-- ===== src/Anomaly/Groups.antt =====
-- packages/anomaly/src/cloudcause_anomaly/comparison.py: `group_changes` and `group_changes_by_actor`.
use cloudcause.Prelude.{
  ℕ, ◌≡◌, refl, sym, ◌∙◌, ap, subst, arith, String, Bool, true, false, not, ◌&&◌, ◌||◌, Option,
  none, some, List, [], ◌∷◌, map, select, All, All-implies, All-append, All-select, string_eq, ◌==◌,
  if◌then◌else◌, if-holds,
}
use cloudcause.Prelude.Dict.{Dict, get}
use cloudcause.Prelude.Floats.{FloatOps, dec, ◌≼◌, sum}
use cloudcause.Prelude.Sorting.{sort_by}
use cloudcause.Prelude.Text.{◌+++◌}
use cloudcause.Contracts.Common.{Provider, DateRange, within, provider_eq}
use cloudcause.Contracts.Analytics.{
  Dimension, service, region, account, resource, tag_owner, actor, AnomalyCandidate,
}
use cloudcause.Contracts.Records.{CostRecord, AuditEvent}
use cloudcause.Anomaly.Aggregates.{Aggregate, dimension_key, place, add_record, add_records}
use cloudcause.Anomaly.Compare.{
  default_owner_tag_keys, provider_name, build_candidates, values, grows_more, of_provider,
}
use cloudcause.Anomaly.Actors.{
  Index, index_events, actor_record, shares, settle, split_record, heavier,
}
use cloudcause.Anomaly.Allocation.{
  ActorAllocation, parts_of, record_weights, allocate_records, warn_unmatched, allocate_actor_costs,
}
use cloudcause.Anomaly.Grouping.{belongs, aggregate_of, add_records-get}

abbrev dimension_name : Dimension → String
dimension_name service = "service"
dimension_name region = "region"
dimension_name account = "account"
dimension_name resource = "resource"
dimension_name tag_owner = "tag_owner"
dimension_name actor = "actor"

-- (tag_key,) if tag_key else DEFAULT_OWNER_TAG_KEYS
abbrev tag_keys_of : Option String → List String
tag_keys_of none = default_owner_tag_keys
tag_keys_of (some k) = if k == "" then default_owner_tag_keys else k ∷ []

abbrev under : Dimension → Option String → Option (Dimension × String)
under dimension none = none
under dimension (some key) = some (dimension, key)

-- the records and the events of the provider in the two periods
abbrev in_periods : DateRange → DateRange → ℕ → Bool
in_periods current baseline day = within current day || within baseline day

abbrev relevant_events : List AuditEvent → DateRange → DateRange → Provider → List AuditEvent
relevant_events events current baseline provider =
    select (λ (e : AuditEvent). (e.provider == provider) && in_periods current baseline e.event_day)
      events

module _ {Num : Type 0} ⦃F : FloatOps Num⦄ where
  abbrev key_in : Dimension → List String → CostRecord Num → Option (Dimension × String)
  key_in dimension tag_keys r = under dimension (dimension_key r dimension tag_keys)

  abbrev pub actor_key : CostRecord Num → Option (Dimension × String)
  actor_key = key_in actor default_owner_tag_keys

  abbrev changes_in :
      Dimension
      → DateRange
      → DateRange
      → Provider
      → Dict String (Aggregate Num)
      → List (AnomalyCandidate Num)
  changes_in dimension current baseline provider aggregates =
      build_candidates (provider_name provider +++ "-" +++ dimension_name dimension +++ "-") current
        baseline 0 (sort_by grows_more (values aggregates))

  unfoldable pub in_scope :
      List (CostRecord Num) → DateRange → DateRange → Provider → List (CostRecord Num)
  in_scope records current baseline provider =
      select
        (λ (r : CostRecord Num).
          (r.provider == provider) && in_periods current baseline r.usage_date)
        records

  -- the loop over the allocated records
  unfoldable pub add_parts :
      Provider
      → DateRange
      → List (CostRecord Num)
      → Dict String (Aggregate Num)
      → Dict String (Aggregate Num)
  unfolding place dimension_key
  add_parts provider current [] aggregates = aggregates
  add_parts provider current (r ∷ rest) aggregates =
      add_parts provider current rest
        (place provider (within current r.usage_date) r (actor_key r) aggregates)

  module _ (parse : String → Option Num) where
    unfoldable pub scoped_allocation :
        List (CostRecord Num)
        → List AuditEvent
        → DateRange
        → DateRange
        → Provider
        → ActorAllocation Num
    unfolding allocate_actor_costs in_scope
    scoped_allocation records audit_events current baseline provider =
        allocate_actor_costs parse (in_scope records current baseline provider)
          (relevant_events audit_events current baseline provider)

    unfoldable pub actor_aggregates :
        List (CostRecord Num)
        → List AuditEvent
        → DateRange
        → DateRange
        → Provider
        → Dict String (Aggregate Num)
    unfolding scoped_allocation add_parts
    actor_aggregates records audit_events current baseline provider =
        add_parts provider current
          (scoped_allocation records audit_events current baseline provider).records []

    unfoldable pub group_changes_by_actor :
        List (CostRecord Num)
        → List AuditEvent
        → DateRange
        → DateRange
        → Provider
        → List (AnomalyCandidate Num) × ActorAllocation Num
    unfolding actor_aggregates build_candidates sort_by
    group_changes_by_actor records audit_events current baseline provider = (
      changes_in actor current baseline provider
          (actor_aggregates records audit_events current baseline provider),
      scoped_allocation records audit_events current baseline provider,
    )

    abbrev by_dimension :
        List (CostRecord Num)
        → Dimension
        → DateRange
        → DateRange
        → Provider
        → Option String
        → List (AnomalyCandidate Num)
    by_dimension records dimension current baseline provider tag_key =
        changes_in dimension current baseline provider (
          add_records (key_in dimension (tag_keys_of tag_key)) provider current baseline
            (of_provider provider records) [])

    unfoldable pub group_changes :
        List (CostRecord Num)
        → Dimension
        → DateRange
        → DateRange
        → Provider
        → List AuditEvent
        → Option String
        → List (AnomalyCandidate Num)
    unfolding group_changes_by_actor add_records dimension_key build_candidates sort_by
    group_changes records actor current baseline provider audit_events tag_key =
        (group_changes_by_actor records audit_events current baseline provider).0
    group_changes records dimension current baseline provider audit_events tag_key =
        by_dimension records dimension current baseline provider tag_key

  -- the parts of a record keep its day
  abbrev OnDay : ℕ → CostRecord Num → Type 0
  OnDay day p = p.usage_date ≡ day

  shares-OnDay :
      (r : CostRecord Num) (t : Num) (ws : Dict String Num)
      → All (OnDay r.usage_date) (shares r t ws)
  unfolding shares actor_record
  shares-OnDay r t [] = tt
  shares-OnDay r t (w ∷ ws) = (refl, shares-OnDay r t ws)

  settle-OnDay :
      (day : ℕ) (r : CostRecord Num) (ps : List (CostRecord Num))
      → All (OnDay day) ps
      → All (OnDay day) (settle r ps)
  unfolding settle
  settle-OnDay day r [] h = tt
  settle-OnDay day r (p ∷ ps) h = h

  parts_of-OnDay :
      (r : CostRecord Num) (ws : Dict String Num) → All (OnDay r.usage_date) (parts_of r ws)
  unfolding parts_of split_record actor_record
  parts_of-OnDay r [] = (refl, tt)
  parts_of-OnDay r (w ∷ ws) =
      if-holds (All (OnDay r.usage_date)) (sum (map (λ e. e.1) (w ∷ ws)) ≼ dec 0 0) (refl, tt)
        (settle-OnDay r.usage_date r _ (shares-OnDay r _ (sort_by heavier (w ∷ ws))))

  module _ (current baseline : DateRange) where
    abbrev InPeriods : CostRecord Num → Type 0
    InPeriods r = in_periods current baseline r.usage_date ≡ true

    parts-InPeriods :
        (r : CostRecord Num) (ps : List (CostRecord Num))
        → InPeriods r
        → All (OnDay r.usage_date) ps
        → All InPeriods ps
    parts-InPeriods r ps h =
        All-implies (OnDay r.usage_date) InPeriods ps
          (λ p same. subst (λ day. in_periods current baseline day ≡ true) (sym same) h)

    allocate_records-InPeriods :
        (parse : String → Option Num) (index : Index) (rs : List (CostRecord Num))
        → All InPeriods rs
        → All InPeriods (allocate_records parse index rs)
    unfolding allocate_records
    allocate_records-InPeriods parse index [] h = tt
    allocate_records-InPeriods parse index (r ∷ rs) h =
        All-append InPeriods _ _
          (parts-InPeriods r _ h.0 (parts_of-OnDay r (record_weights parse index r).0))
          (allocate_records-InPeriods parse index rs h.1)

    place-add_record :
        (provider : Provider) (r : CostRecord Num) (d : Dict String (Aggregate Num))
        → InPeriods r
        → place provider (within current r.usage_date) r (actor_key r) d
          ≡ add_record actor_key provider current baseline r d
    unfolding add_record
    place-add_record provider r d h =
        passes (within current r.usage_date) (within baseline r.usage_date) d
          (place provider (within current r.usage_date) r (actor_key r) d) h
      where
        passes :
            {A : Type 0} (c b : Bool) (x y : A)
            → (c || b) ≡ true
            → y ≡ (if not c && not b then x else y)
        passes true b x y k = refl
        passes false true x y k = refl
        passes false false x y k = ground (arith, k)

    add_parts-add_records :
        (provider : Provider) (rs : List (CostRecord Num)) (d : Dict String (Aggregate Num))
        → All InPeriods rs
        → add_parts provider current rs d ≡ add_records actor_key provider current baseline rs d
    unfolding add_parts add_records
    add_parts-add_records provider [] d h = refl
    add_parts-add_records provider (r ∷ rs) d h =
        add_parts-add_records provider rs _ h.1
        ∙ ap (λ a. add_records actor_key provider current baseline rs a)
            (place-add_record provider r d h.0)

  in_scope-InPeriods :
      (records : List (CostRecord Num)) (current baseline : DateRange) (provider : Provider)
      → All (InPeriods current baseline) (in_scope records current baseline provider)
  unfolding in_scope
  in_scope-InPeriods records current baseline provider =
      All-implies _ (InPeriods current baseline) _ (λ r h. ground (arith, h)) (All-select _ records)

  scoped_allocation-InPeriods :
      (parse : String → Option Num) (records : List (CostRecord Num)) (events : List AuditEvent)
      (current baseline : DateRange) (provider : Provider)
      → All
          (InPeriods current baseline)
          (scoped_allocation parse records events current baseline provider).records
  unfolding scoped_allocation allocate_actor_costs warn_unmatched
  scoped_allocation-InPeriods parse records events current baseline provider =
      let index : Index = index_events (relevant_events events current baseline provider) [] in
      let all_in : All (InPeriods current baseline)
          (allocate_records parse index (in_scope records current baseline provider)) =
        allocate_records-InPeriods current baseline parse index
          (in_scope records current baseline provider)
          (in_scope-InPeriods records current baseline provider) in
      if-holds (λ (a : ActorAllocation Num). All (InPeriods current baseline) a.records) _ all_in
        all_in

  -- The breakdown by principal sorts the shares of the allocation the way every other breakdown sorts
  -- records: the aggregate under a principal is what the principal's own shares add up to, in their
  -- order, each in the period of its record, and a principal without a share has no aggregate.
  pub actor_aggregates-get :
      (parse : String → Option Num) (records : List (CostRecord Num)) (events : List AuditEvent)
      (current baseline : DateRange) (provider : Provider) (key : String)
      → get key (actor_aggregates parse records events current baseline provider)
        ≡ aggregate_of actor_key provider current baseline key (
            select
              (belongs actor_key provider current baseline key)
              (scoped_allocation parse records events current baseline provider).records)
  unfolding actor_aggregates get
  actor_aggregates-get parse records events current baseline provider key =
      let parts : List (CostRecord Num) =
        (scoped_allocation parse records events current baseline provider).records in
      ap (get key) (
        add_parts-add_records current baseline provider parts []
          (scoped_allocation-InPeriods parse records events current baseline provider))
      ∙ add_records-get actor_key provider current baseline key parts []
